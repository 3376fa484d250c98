-- ===== src/Handle.antt =====
-- The file handle's text: the server writes an inode number into the eight bytes of a handle by
-- `snprintf(fh->data, VSNFS_FHSIZE, "%ld", ino)` (server/vsnfsproc.c, server/vsnfsxdr.c).
use vsnfs.Base.{
  ℕ, zero, suc, ◌+◌, ◌-◌, ◌*◌, ◌/◌, ◌%◌, ◌^◌, List, [], ◌∷◌, ◌++◌, ltb, if◌then◌else◌, length, take,
  drop,
}
use vsnfs.Protocol.{fhsize}
pub mod Decimal
pub mod Cut

-- The decimal digits of a number below 10 ^ fuel.
unfoldable pub decimal : ℕ → ℕ → List ℕ
decimal zero n = []
decimal (suc fuel) n =
    let front = decimal fuel (n / 10) in
    if ltb n 10 then (48 + n) ∷ [] else front ++ (48 + n % 10) ∷ []

-- "%ld" of an `unsigned long` of 64 bits, which from 2 ^ 63 on prints as a negative number.
unfoldable pub print_ld : ℕ → List ℕ
print_ld n = if ltb n (2 ^ 63) then decimal 20 n else 45 ∷ decimal 20 (2 ^ 64 - n)

-- `snprintf(buf, size, …)`: what fits before the final NUL; the bytes behind it stay.
unfoldable pub snprintf : List ℕ → ℕ → List ℕ → List ℕ
snprintf buf size text =
    let shown = take (size - 1) text in shown ++ (0 ∷ drop (length shown + 1) buf)

-- The handle's bytes for an inode, over what the array held before.
unfoldable pub handle_of : List ℕ → ℕ → List ℕ
unfolding snprintf print_ld
handle_of buf ino = snprintf buf fhsize (print_ld ino)
