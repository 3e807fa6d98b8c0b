-- ===== src/Kernel/Errno.antt =====
-- src/libk/include/camellia/errno.h: the error codes that the modelled code returns, negated.
use camellia.Base.{ℕ}

abbrev pub ebadf : ℕ
ebadf = 3

abbrev pub einval : ℕ
einval = 4

abbrev pub emfile : ℕ
emfile = 11

abbrev pub epipe : ℕ
epipe = 13

abbrev pub efault : ℕ
efault = 2

abbrev pub enosys : ℕ
enosys = 5

abbrev pub eacces : ℕ
eacces = 10

abbrev pub echild : ℕ
echild = 14
