-- ===== src/FirstServer/Served.antt =====
-- What MP2/src/csiebox_server.c does for a request, and how a request stands in the bytes of its client.
use ntu_system_programming.Common.{
  ℕ, suc, ◌≤◌, ◌<◌, ◌≡◌, ◌≢◌, Option, none, some, List, [], ◌∷◌, ◌++◌, ◌>>=◌, length,
}
use ntu_system_programming.BoxServer.{Text, Login}
use ntu_system_programming.BoxServer.Files.{up_to_nul}
use ntu_system_programming.FirstServer.{
  Layout, Disk, Session, ServerAction, MetaBody, FileBody, send, close, user_homedir, join,
  meta_actions, file_actions, hard_link_actions, soft_link_actions, rm_actions, login_user,
}

pub data ClientRequest : Type 0 where
  logs_in : Login → ClientRequest
  has_meta : MetaBody → Text → ClientRequest
  has_file : FileBody → Text → Text → ClientRequest
  has_empty : ClientRequest
  has_link : Text → Text → ClientRequest
  has_symlink : Text → Text → ℕ → ClientRequest
  has_removed : Text → ClientRequest

abbrev below_home :
    Session → Text → (Text → Option (List ServerAction)) → Option (Session × List ServerAction)
below_home s name act =
    user_homedir s >>= (λ home. join home name >>= (λ path. act path >>= (λ out. some (s, out))))

-- What a request asks for, from its contents alone.
unfoldable pub serve_request :
    Layout → Disk → ℕ → Session → ClientRequest → Option (Session × List ServerAction)
serve_request l d conn_fd s (logs_in req) = some (login_user l conn_fd s req)
serve_request l d conn_fd s (has_meta m name) = below_home s name (λ path. meta_actions d path m)
serve_request l d conn_fd s (has_file f name bytes) =
    below_home s name (λ path. some (file_actions d path f.stat bytes))
serve_request l d conn_fd s has_empty =
    some (s, send (record { magic = 0; op = 0; status = 0; client_id = 0; datalen = 0 }) ∷ [])
serve_request l d conn_fd s (has_link src tar) = user_homedir s >>= (λ home.
    join home src
    >>= (λ source. join home tar >>= (λ target. some (s, hard_link_actions d source target))))
serve_request l d conn_fd s (has_symlink src tar same_head) =
    user_homedir s >>= (λ home. soft_link_actions home src tar same_head >>= (λ out. some (s, out)))
serve_request l d conn_fd s (has_removed name) = below_home s name (λ path. rm_actions path)

-- The requests of a connection, one after the other, and the logout.
unfoldable pub serve_requests :
    Layout → (ℕ → Disk) → ℕ → Session → List ClientRequest → Option (Session × List ServerAction)
serve_requests l disks conn_fd s [] = some (record s { user = none }, close ∷ [])
serve_requests l disks conn_fd s (r ∷ rs) =
    serve_request l (disks (suc (length rs))) conn_fd s r >>= (λ (s', out).
      serve_requests l disks conn_fd s' rs >>= (λ (s'', more). some (s'', out ++ more)))

-- A header and a body of a request, as the layout reads them.
pub record Framed (l : Layout) (op size : ℕ) (header body : Text) : Type 0 where
  pub header_len : length header ≡ l.server.header_size
  pub some_header : 0 < l.server.header_size
  pub magic : (l.server.decode_header header).magic ≡ 144
  pub is_op : (l.server.decode_header header).op ≡ op
  pub datalen : (l.server.decode_header header).datalen ≡ length body
  pub room : length body ≤ size

-- A text of `n` bytes that fits its buffer and has no NUL.
pub record Plain (n : ℕ) (name : Text) : Type 0 where
  pub len : length name ≡ n
  pub some_byte : 0 < n
  pub short : n < 4096
  pub no_nul : up_to_nul name ≡ name

-- The bytes that a client sends for a request.
pub data Sends (l : Layout) (r : ClientRequest) (bytes : Text) : Type 0 where
  login_bytes :
      (header body : Text)
      → Framed l 0 l.server.login_size header body
      → r ≡ logs_in (l.server.decode_login body)
      → bytes ≡ header ++ body
      → Sends l r bytes
  meta_bytes :
      (header body name : Text)
      → Framed l 1 l.meta_size header body
      → Plain (l.decode_meta body).pathlen name
      → r ≡ has_meta (l.decode_meta body) name
      → bytes ≡ header ++ (body ++ name)
      → Sends l r bytes
  file_bytes :
      (header body name content : Text)
      → Framed l 2 l.file_size header body
      → Plain (l.decode_file body).pathlen name
      → length content ≡ (l.decode_file body).stat.st_size
      → 0 < length content
      → r ≡ has_file (l.decode_file body) name content
      → bytes ≡ header ++ (body ++ (name ++ content))
      → Sends l r bytes
  empty_bytes :
      (header body : Text)
      → Framed l 2 l.file_size header body
      → (l.decode_file body).stat.st_size ≡ 0
      → r ≡ has_empty
      → bytes ≡ header ++ body
      → Sends l r bytes
  link_bytes :
      (header body src tar : Text)
      → Framed l 3 l.link_size header body
      → (l.server.decode_header header).status ≡ 2
      → Plain (l.decode_link body).srclen src
      → Plain (l.decode_link body).targetlen tar
      → r ≡ has_link src tar
      → bytes ≡ header ++ (body ++ (src ++ tar))
      → Sends l r bytes
  symlink_bytes :
      (header body src tar int : Text)
      → Framed l 3 l.link_size header body
      → (l.server.decode_header header).status ≢ 2
      → Plain (l.decode_link body).srclen src
      → Plain (l.decode_link body).targetlen tar
      → length int ≡ l.int_size
      → 0 < l.int_size
      → r ≡ has_symlink src tar (l.decode_int int)
      → bytes ≡ header ++ (body ++ (src ++ (tar ++ int)))
      → Sends l r bytes
  rm_bytes :
      (header body name : Text)
      → Framed l 5 l.rm_size header body
      → Plain (l.decode_rm body) name
      → r ≡ has_removed name
      → bytes ≡ header ++ (body ++ name)
      → Sends l r bytes
