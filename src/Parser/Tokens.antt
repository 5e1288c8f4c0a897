-- ===== src/Parser/Tokens.antt =====
-- The token types of packages/driver/src/parser/tokenizer.ts. A keyword is its code units.
use tmuxcc_driver.Prelude.{ℕ, List, Bytes}

pub record NotificationToken : Type 0 where
  pub keyword : List ℕ
  pub raw_line : Bytes

-- The three numbers of a %begin, %end or %error line.
pub record Guard : Type 0 where
  pub timestamp : ℕ
  pub command_number : ℕ
  pub flags : ℕ

pub data ControlToken : Type 0 where
  notification : NotificationToken → ControlToken
  block_begin block_end block_error : Guard → ControlToken
  block_body : Bytes → ControlToken
  dcs_open dcs_close : ControlToken
