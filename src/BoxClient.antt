-- ===== src/BoxClient.antt =====
-- The csiebox client, MP5/src/csiebox_client.c. What it sends is bytes, made by the encoders of the
-- parameter `Wire`, the counterpart of the decoders that the server has in `World`. The files it
-- finds are the parameter `Local`. `none` is undefined behaviour, unless a comment says otherwise.
pub mod Config
pub mod Start
pub mod Paths
pub mod Messages
pub mod Agree
pub mod Stored
pub mod Exchange
pub mod Walk
pub mod Trees
pub mod Listing
pub mod Watch
pub mod Events
pub mod Tests
use ntu_system_programming.Common.{
  ℕ, zero, suc, ◌+◌, ◌-◌, ◌*◌, Bool, true, false, Option, none, some, List, [], ◌∷◌, ◌++◌, leb, ltb,
  ◌==◌, ◌&&◌, if◌then◌else◌, ◌>>=◌, length, get_or, set,
}
use ntu_system_programming.BoxServer.{Text, Header, Stat, is_dir, Login, Meta}
use ntu_system_programming.BoxServer.Files.{up_to_nul}

-- The bytes of the structs, each behind its header but the header itself.
pub record Wire : Type 0 where
  pub encode_header : Header → Text
  pub encode_login : Login → Text
  pub login_len : ℕ
  pub encode_meta : Meta → Text
  pub meta_len : ℕ
  pub encode_rm : ℕ → Text
  pub rm_len : ℕ
  pub encode_file : ℕ → Text
  pub file_len : ℕ

-- What `lstat`, `md5_file` and `open` with `read` find at a path; a `contents` of `none` is an `open`
-- that fails. A path that `lstat` does not find has the zeroed struct.
pub record Local : Type 0 where
  pub stat : Stat
  pub digest : Text
  pub contents : Option Text

-- `strncmp(root, ret, strlen(root)) == 0`
unfoldable pub is_prefix : Text → Text → Bool
is_prefix [] t = true
is_prefix (a ∷ root) [] = false
is_prefix (a ∷ root) (b ∷ t) = let rest = is_prefix root t in if a == b then rest else false

-- The loop of `convert_to_relative_path` from index `i`, of `n` rounds, on the array `ret`.
unfoldable pub shift_loop : ℕ → ℕ → ℕ → List ℕ → List ℕ
shift_loop zero i rootlen ret = ret
shift_loop (suc n) i rootlen ret =
    shift_loop n (suc i) rootlen
      (set ret i (if ltb i rootlen then get_or ret (i + rootlen) 0 else 0))

-- The absolute path, in a buffer of PATH_MAX bytes.
unfoldable pub absolute : Text → Text → Option Text
absolute cwd path =
    let whole = cwd ++ 47 ∷ path in
    let ret = if get_or path 0 0 == 47 then path else whole in
    if ltb (length ret) 4096 then some ret else none

-- `some none` is the result NULL. `junk` is what `malloc` left behind the string. A root of more than
-- half of PATH_MAX makes the loop read behind the buffer.
unfoldable pub convert_to_relative_path : Text → Text → Text → List ℕ → Option (Option Text)
convert_to_relative_path root cwd path junk =
    let array : Text → Text =
      λ ret. up_to_nul (shift_loop (length ret) 0 (length root) (ret ++ 0 ∷ junk)) in
    absolute cwd path >>= (λ ret.
      if is_prefix root ret
      then if leb (length root) 2048 then some (some (array ret)) else none
      else some none)
