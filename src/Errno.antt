-- ===== src/Errno.antt =====
-- The error numbers of the C library that the code names: positive, whatever their values.
use hardware_msm7k.Prelude.{ℕ, ◌<◌}

pub record Errno : Type 0 where
  pub einval : ℕ
  pub enomem : ℕ
  pub enoent : ℕ
  pub einval_pos : 0 < einval
  pub enomem_pos : 0 < enomem
  pub enoent_pos : 0 < enoent
