-- ===== src/Common/Errno.antt =====
-- The errno values of Linux that the program returns, negated.
use gnuweeb_bot.Common.Int.{ℤ, negsuc}

-- -ENOENT
abbrev pub enoent : ℤ
enoent = negsuc 1

-- -EAGAIN
abbrev pub eagain : ℤ
eagain = negsuc 10

-- -ENOMEM
abbrev pub enomem : ℤ
enomem = negsuc 11

-- -EINVAL
abbrev pub einval : ℤ
einval = negsuc 21

-- -EOPNOTSUPP
abbrev pub eopnotsupp : ℤ
eopnotsupp = negsuc 94

-- -EOWNERDEAD
abbrev pub eownerdead : ℤ
eownerdead = negsuc 129
