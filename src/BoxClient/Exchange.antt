-- ===== src/BoxClient/Exchange.antt =====
-- The client and the server together: what the server makes of the messages of the client.
use ntu_system_programming.Common.{ℕ, ◌^◌, ◌<◌, ◌≡◌, ◌≢◌, List, length, get_or}
use ntu_system_programming.BoxServer.{Text}
use ntu_system_programming.BoxClient.{Local}
use ntu_system_programming.BoxClient.Agree.{Agree}
use ntu_system_programming.BoxClient.Stored.{content_of, Stored}

-- A path that is sent: short enough for the buffer of the server, and without a NUL.
pub record IsSent (relative : Text) : Type 0 where
  pub short : length relative < 4096
  pub no_nul : (k : ℕ) → k < length relative → get_or relative k 0 ≢ 0

-- Numbers that fit their fields.
pub record FitsLocal (l : Local) : Type 0 where
  pub st_mode : l.stat.st_mode < 2 ^ 32
  pub st_atime : l.stat.st_atime < 2 ^ 64
  pub st_mtime : l.stat.st_mtime < 2 ^ 64
  pub digest : length l.digest ≡ 16
  pub size : length (content_of l) < 2 ^ 64
