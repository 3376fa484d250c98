-- ===== src/Tests/Instances.antt =====
-- Instances of what the kernel's libraries and file systems are asked for, and shared test data.
use vsnfs.Base.{
  ℕ, ◌+◌, ◌-◌, ◌*◌, ◌/◌, ◌%◌, ◌^◌, ◌<◌, ◌≤◌, ◌≡◌, refl, ap, List, [], ◌∷◌, ◌++◌, Option, none, some,
  Bool, true, false, ◌&&◌, ◌==◌, leb, ltb, if◌then◌else◌, pos, neg, Run, done, out_of_bounds, need,
  ◌>>=◌, >>=-eq-done, ◌>>◌, length, take, drop, replicate, All, be32, get_be32, get_be32-be32,
  IsWord, arith, leb_of_le, ltb_of_lt, ltb_of_le, Bool-cases, inl, inr,
}
use vsnfs.Kernel.{Sunrpc, Strtoul, IsDigit, value, page_size}
use vsnfs.Vfs.{Vfs, Dirent, regular, directory, fill_all}
use vsnfs.Protocol.{VsnfsFh}
use vsnfs.ServerXdr.{SvcRqst}
use vsnfs.Errno.Constants
use vsnfs.Server.Resolve.{plenty}
use vsnfs.Rpc.Serve.{Surroundings}

abbrev quad : ℕ → ℕ
quad n = (n + 3) / 4

abbrev pub string_inplace : List ℕ → ℕ → Run (Option (List ℕ × ℕ × List ℕ))
string_inplace base max = do
  (n, body) ← get_be32 base
  if ltb max n then done none else (do
    need (leb (4 * quad n) (length body)) out_of_bounds
    done (some (take n body, n, drop (4 * quad n) body)))

pub string_inplace_long :
    (n max : ℕ) (body : List ℕ)
    → IsWord n
    → max < n
    → string_inplace (be32 n ++ body) max ≡ done none
string_inplace_long n max body w h = rw (get_be32-be32 n body w, ltb_of_lt max n h)

pub string_inplace_fits :
    (n max : ℕ) (body : List ℕ)
    → IsWord n
    → n ≤ max
    → 4 * quad n ≤ length body
    → string_inplace (be32 n ++ body) max ≡ done (some (take n body, n, drop (4 * quad n) body))
string_inplace_fits n max body w h k =
    rw (get_be32-be32 n body w, ltb_of_le max n h, leb_of_le (4 * quad n) (length body) k)

pub string_inplace_bound :
    (p : List ℕ) (max : ℕ) (text : List ℕ) (n : ℕ) (rest : List ℕ)
    → string_inplace p max ≡ done (some (text, n, rest))
    → n ≤ max
string_inplace_bound p max text n rest h =
    let ((m, body), _, h') = >>=-eq-done (get_be32 p) _ h in
    elim (Bool-cases (ltb max m)) [
      | inl long ↦ absurd (ground (arith, long, h'))
      | inr fits ↦ ground (arith, fits, h')
    ]

abbrev pub sunrpc : Sunrpc
sunrpc = record {
  quadlen = quad;
  quadlen_lem = λ n. refl;
  encode_array = λ obj n. be32 n ++ (take n obj ++ replicate (4 * quad n - n) 0);
  encode_array_lem = λ obj n h. refl;
  decode_string_inplace = string_inplace;
  decode_string_long = string_inplace_long;
  decode_string_fits = string_inplace_fits;
  decode_string_bound = string_inplace_bound;
  argsize_check = λ iov_len used. leb used iov_len;
  argsize_check_lem = λ iov_len used. refl;
  ressize_check = λ used. leb used page_size;
  ressize_check_lem = λ used. refl;
  adjust_iovec = λ used. used;
  adjust_iovec_lem = λ used. refl;
  rephdrsize = 6;
}

-- The digits that a text begins with.
abbrev digits : List ℕ → List ℕ
digits [] = []
digits (c ∷ cs) = let rest = digits cs in if leb 48 c && leb c 57 then c ∷ rest else []

digits-append : (cs rest : List ℕ) → All IsDigit cs → digits (cs ++ (0 ∷ rest)) ≡ cs
digits-append [] rest h = refl
digits-append (c ∷ cs) rest h = ground (arith, digits-append cs rest)

abbrev pub read_number : List ℕ → ℕ
read_number text = value 0 (digits text) % 2 ^ 64

pub read_number_decimal :
    (c : ℕ) (cs rest : List ℕ)
    → All IsDigit (c ∷ cs)
    → 49 ≤ c
    → value 0 (c ∷ cs) < 2 ^ 64
    → read_number ((c ∷ cs) ++ (0 ∷ rest)) ≡ value 0 (c ∷ cs)
read_number_decimal c cs rest d h small =
    omega (arith, ap (value 0) (digits-append (c ∷ cs) rest d))

pub read_number_zero : (rest : List ℕ) → read_number (48 ∷ 0 ∷ rest) ≡ 0
read_number_zero rest = refl

abbrev pub strtoul : Strtoul
strtoul = record {
  simple_strtoul = read_number;
  simple_strtoul_decimal = read_number_decimal;
  simple_strtoul_zero = read_number_zero;
}

abbrev pub same_text : List ℕ → List ℕ → Bool
same_text [] [] = true
same_text (a ∷ rest) (b ∷ bs) = if a == b then same_text rest bs else false
same_text [] (b ∷ bs) = false
same_text (a ∷ rest) [] = false

-- "/a/" and "b"
abbrev pub root_path : List ℕ
root_path = b'/' ∷ b'a' ∷ b'/' ∷ []

abbrev pub name_b : List ℕ
name_b = b'b' ∷ []

abbrev pub dirent_b : Dirent
dirent_b = record { name = name_b; offset = 1; ino = 12; d_type = 8 }

-- A file system with the directory "/a/", inode 2, and in it the file "b", inode 12.
abbrev pub vfs : {State : Type 0} → Vfs (List Dirent) State
vfs = record {
  path_lookup = λ path.
      if same_text path root_path
      then (pos 0, some (record { i_ino = 2; kind = directory }))
      else if same_text path (root_path ++ name_b)
      then (pos 0, some (record { i_ino = 12; kind = regular }))
      else (neg Constants.enoent, none);
  filp_open = λ path. if same_text path root_path then some (dirent_b ∷ []) else none;
  filp_close = λ file. pos 0;
  entries = λ file. file;
  vfs_readdir = λ file fill state. (pos 0, fill_all fill file state);
  vfs_readdir_lem = λ file fill state. refl;
  vfs_read = λ file count position. (pos 2, b'h' ∷ b'i' ∷ [], position + 2);
}

-- Eight bytes of memory, and a handle in it.
abbrev pub eight_bytes : List ℕ
eight_bytes = 1 ∷ 2 ∷ 3 ∷ 4 ∷ 5 ∷ 6 ∷ 7 ∷ 8 ∷ []

abbrev pub some_fh : VsnfsFh
some_fh = record { handle = eight_bytes; type = 2 }

-- A request whose reply is still empty.
abbrev pub blank_rqst : SvcRqst
blank_rqst = record { iov_len = 0; resused = 1; head = []; page_len = 0; page = [] }

abbrev pub surroundings : Surroundings
surroundings = record {
  alloc = plenty;
  file_path = true;
  rqstp = blank_rqst;
  stale = 9 ∷ [];
  more = 9 ∷ [];
  resp = some_fh;
  stack = eight_bytes;
  position = 0;
  head_at = 28;
  garbage = neg 5;
  failed = neg 5;
}

-- With a word more of memory behind a reply.
abbrev pub roomy : Surroundings
roomy = record surroundings { more = 9 ∷ 9 ∷ 9 ∷ 9 ∷ [] }

-- The page of a READ of "hi" in them.
abbrev pub page_hi : List ℕ
page_hi = be32 2 ++ b'h' ∷ b'i' ∷ 9 ∷ 9 ∷ 9 ∷ 9 ∷ 9 ∷ 9 ∷ 9 ∷ 9 ∷ []
