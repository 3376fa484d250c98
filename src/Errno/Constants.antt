-- ===== src/Errno/Constants.antt =====
-- The errno values of Linux (asm-generic/errno.h, linux/errno.h) that the code names.
use vsnfs.Base.{ℕ}

abbrev pub eperm : ℕ
eperm = 1

abbrev pub enoent : ℕ
enoent = 2

abbrev pub eio : ℕ
eio = 5

abbrev pub enxio : ℕ
enxio = 6

abbrev pub eagain : ℕ
eagain = 11

abbrev pub enomem : ℕ
enomem = 12

abbrev pub eacces : ℕ
eacces = 13

abbrev pub eexist : ℕ
eexist = 17

abbrev pub exdev : ℕ
exdev = 18

abbrev pub enodev : ℕ
enodev = 19

abbrev pub enotdir : ℕ
enotdir = 20

abbrev pub eisdir : ℕ
eisdir = 21

abbrev pub einval : ℕ
einval = 22

abbrev pub etxtbsy : ℕ
etxtbsy = 26

abbrev pub efbig : ℕ
efbig = 27

abbrev pub enospc : ℕ
enospc = 28

abbrev pub erofs : ℕ
erofs = 30

abbrev pub emlink : ℕ
emlink = 31

abbrev pub enametoolong : ℕ
enametoolong = 36

abbrev pub enotempty : ℕ
enotempty = 39

abbrev pub eremote : ℕ
eremote = 66

abbrev pub eopnotsupp : ℕ
eopnotsupp = 95

abbrev pub etimedout : ℕ
etimedout = 110

abbrev pub estale : ℕ
estale = 116

abbrev pub edquot : ℕ
edquot = 122

abbrev pub erestartsys : ℕ
erestartsys = 512

abbrev pub ebadhandle : ℕ
ebadhandle = 521

abbrev pub ebadcookie : ℕ
ebadcookie = 523

abbrev pub etoosmall : ℕ
etoosmall = 525

abbrev pub eintr : ℕ
eintr = 4
