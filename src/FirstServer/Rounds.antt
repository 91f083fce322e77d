-- ===== src/FirstServer/Rounds.antt =====
-- The rounds of handle_request of MP2/src/csiebox_server.c over the requests of a connection.
use ntu_system_programming.Common.{
  ℕ, zero, suc, ◌<◌, ◌≡◌, refl, ◌∙◌, ap, arith, true, false, Option, none, some, List, [], ◌∷◌,
  ◌++◌, ◌==◌, ◌>>=◌, length, inl, inr, Option-cases,
}
use mathlib.Core.List.{append_assoc, append-nil}
use ntu_system_programming.BoxServer.{Text, recv_message}
use ntu_system_programming.BoxServer.Transfer.{recv_message-append}
use ntu_system_programming.FirstServer.{
  Layout, Disk, Session, close, syn_file, syn_meta, syn_hardlink, delete, login_user, on_op,
  handle_connection,
}
use ntu_system_programming.FirstServer.Served.{
  ClientRequest, has_empty, serve_request, serve_requests, Framed, Sends, login_bytes, meta_bytes,
  file_bytes, empty_bytes, link_bytes, symlink_bytes, rm_bytes,
}
use ntu_system_programming.FirstServer.Framing.{
  body_taken, with_rest, keeps, syn_meta_taken, delete_taken, syn_file_taken, hard_link_taken,
  soft_link_taken,
}

module _ (l : Layout) (d : Disk) (conn_fd : ℕ) (s : Session) where
  -- A framed message goes to the handler of its operation.
  on_login_op :
      (header body rest : Text)
      → Framed l 0 l.server.login_size header body
      → on_op l d conn_fd s (l.server.decode_header header) (body ++ rest)
        ≡ with_rest rest (some (login_user l conn_fd s (l.server.decode_login body)))
  unfolding on_op
  on_login_op header body rest f =
      let h = l.server.decode_header header in
      let is : (h.op == 0) ≡ true = ground (arith, f.is_op) in
      rw (is, body_taken l 0 l.server.login_size header body rest f) refl

  on_meta_op :
      (header body rest : Text)
      → Framed l 1 l.meta_size header body
      → on_op l d conn_fd s (l.server.decode_header header) (body ++ rest)
        ≡ keeps s (syn_meta d s (l.decode_meta body) rest)
  unfolding on_op
  on_meta_op header body rest f =
      let h = l.server.decode_header header in
      let is0 : (h.op == 0) ≡ false = ground (arith, f.is_op) in
      let is : (h.op == 1) ≡ true = ground (arith, f.is_op) in
      rw (is0, is, body_taken l 1 l.meta_size header body rest f) refl

  on_file_op :
      (header body rest : Text)
      → Framed l 2 l.file_size header body
      → on_op l d conn_fd s (l.server.decode_header header) (body ++ rest)
        ≡ keeps s (syn_file d s (l.decode_file body) rest)
  unfolding on_op
  on_file_op header body rest f =
      let h = l.server.decode_header header in
      let is0 : (h.op == 0) ≡ false = ground (arith, f.is_op) in
      let is1 : (h.op == 1) ≡ false = ground (arith, f.is_op) in
      let is : (h.op == 2) ≡ true = ground (arith, f.is_op) in
      rw (is0, is1, is, body_taken l 2 l.file_size header body rest f) refl

  on_link_op :
      (header body rest : Text)
      → Framed l 3 l.link_size header body
      → on_op l d conn_fd s (l.server.decode_header header) (body ++ rest)
        ≡ keeps s (syn_hardlink l d s (l.server.decode_header header) (l.decode_link body) rest)
  unfolding on_op
  on_link_op header body rest f =
      let h = l.server.decode_header header in
      let is0 : (h.op == 0) ≡ false = ground (arith, f.is_op) in
      let is1 : (h.op == 1) ≡ false = ground (arith, f.is_op) in
      let is2 : (h.op == 2) ≡ false = ground (arith, f.is_op) in
      let is : (h.op == 3) ≡ true = ground (arith, f.is_op) in
      rw (is0, is1, is2, is, body_taken l 3 l.link_size header body rest f) refl

  on_rm_op :
      (header body rest : Text)
      → Framed l 5 l.rm_size header body
      → on_op l d conn_fd s (l.server.decode_header header) (body ++ rest)
        ≡ keeps s (delete s (l.decode_rm body) rest)
  unfolding on_op
  on_rm_op header body rest f =
      let h = l.server.decode_header header in
      let is0 : (h.op == 0) ≡ false = ground (arith, f.is_op) in
      let is1 : (h.op == 1) ≡ false = ground (arith, f.is_op) in
      let is2 : (h.op == 2) ≡ false = ground (arith, f.is_op) in
      let is3 : (h.op == 3) ≡ false = ground (arith, f.is_op) in
      let is : (h.op == 5) ≡ true = ground (arith, f.is_op) in
      rw (is0, is1, is2, is3, is, body_taken l 5 l.rm_size header body rest f) refl

-- A request's bytes are a header and what its operation takes, whatever comes behind.
record Parts (l : Layout) (r : ClientRequest) (bytes : Text) : Type 0 where
  header : Text
  after : Text
  both : bytes ≡ header ++ after
  header_len : length header ≡ l.server.header_size
  some_header : 0 < l.server.header_size
  magic : (l.server.decode_header header).magic ≡ 144
  taken :
      (d : Disk) (conn_fd : ℕ) (s : Session) (rest : Text)
      → on_op l d conn_fd s (l.server.decode_header header) (after ++ rest)
        ≡ with_rest rest (serve_request l d conn_fd s r)

Framed-Parts :
    (l : Layout) (r : ClientRequest) (op size : ℕ) (header body after : Text)
    → Framed l op size header body
    → ((d : Disk) (conn_fd : ℕ) (s : Session) (rest : Text)
        → on_op l d conn_fd s (l.server.decode_header header) ((body ++ after) ++ rest)
          ≡ with_rest rest (serve_request l d conn_fd s r))
    → Parts l r (header ++ (body ++ after))
Framed-Parts l r op size header body after f taken = record {
  header = header;
  after = body ++ after;
  both = refl;
  header_len = f.header_len;
  some_header = f.some_header;
  magic = f.magic;
  taken = taken;
}

empty_file :
    (l : Layout) (d : Disk) (conn_fd : ℕ) (s : Session) (body rest : Text)
    → (l.decode_file body).stat.st_size ≡ 0
    → keeps s (syn_file d s (l.decode_file body) rest)
      ≡ with_rest rest (serve_request l d conn_fd s has_empty)
unfolding syn_file serve_request
empty_file l d conn_fd s body rest e =
    let z : ((l.decode_file body).stat.st_size == 0) ≡ true = ground arith in rw z refl

Sends-Parts : (l : Layout) (r : ClientRequest) (bytes : Text) → Sends l r bytes → Parts l r bytes
Sends-Parts l r bytes (login_bytes header body f is at) =
    rw (at, is, ← append-nil body)
      (Framed-Parts l _ 0 l.server.login_size header body [] f (λ d conn_fd s rest.
        rw append-nil
          (on_login_op l d conn_fd s header body rest f ∙ (unfold serve_request in refl))))
Sends-Parts l r bytes (meta_bytes header body name f p is at) =
    rw (at, is)
      (Framed-Parts l _ 1 l.meta_size header body name f (λ d conn_fd s rest. rw append_assoc (
        on_meta_op l d conn_fd s header body (name ++ rest) f
        ∙ syn_meta_taken l d conn_fd s (l.decode_meta body) name rest p)))
Sends-Parts l r bytes (file_bytes header body name content f p size some_byte is at) =
    rw (at, is)
      (Framed-Parts l _ 2 l.file_size header body (name ++ content) f (λ d conn_fd s rest.
        rw (append_assoc body (name ++ content) rest, append_assoc name content rest)
          (on_file_op l d conn_fd s header body (name ++ (content ++ rest)) f
            ∙ syn_file_taken l d conn_fd s (l.decode_file body) name content rest p size
                some_byte)))
Sends-Parts l r bytes (empty_bytes header body f e is at) =
    rw (at, is, ← append-nil body)
      (Framed-Parts l _ 2 l.file_size header body [] f (λ d conn_fd s rest.
        rw append-nil
          (on_file_op l d conn_fd s header body rest f ∙ empty_file l d conn_fd s body rest e)))
Sends-Parts l r bytes (link_bytes header body src tar f more p q is at) =
    rw (at, is)
      (Framed-Parts l _ 3 l.link_size header body (src ++ tar) f (λ d conn_fd s rest.
        rw (append_assoc body (src ++ tar) rest, append_assoc src tar rest)
          (on_link_op l d conn_fd s header body (src ++ (tar ++ rest)) f
            ∙ hard_link_taken l d conn_fd s _ (l.decode_link body) src tar rest more p q)))
Sends-Parts l r bytes (symlink_bytes header body src tar int f ne p q size some_byte is at) =
    rw (at, is)
      (Framed-Parts l _ 3 l.link_size header body (src ++ (tar ++ int)) f (λ d conn_fd s rest.
        rw
          (
            append_assoc body (src ++ (tar ++ int)) rest,
            append_assoc src (tar ++ int) rest,
            append_assoc tar int rest,
          )
          (on_link_op l d conn_fd s header body (src ++ (tar ++ (int ++ rest))) f
            ∙ soft_link_taken l d conn_fd s _ (l.decode_link body) src tar int rest ne p q size
                some_byte)))
Sends-Parts l r bytes (rm_bytes header body name f p is at) =
    rw (at, is)
      (Framed-Parts l _ 5 l.rm_size header body name f (λ d conn_fd s rest. rw append_assoc (
        on_rm_op l d conn_fd s header body (name ++ rest) f
        ∙ delete_taken l d conn_fd s (l.decode_rm body) name rest p)))

-- The bytes of requests one behind the other.
unfoldable pub SendsAll : Layout → List ClientRequest → Text → Type 0
SendsAll l [] bytes = bytes ≡ []
SendsAll l (r ∷ rs) bytes =
    (first : Text) × (behind : Text) × Sends l r first
    × SendsAll l rs behind
    × (bytes ≡ first ++ behind)

recv_nothing : (n : ℕ) → 0 < n → recv_message n [] ≡ (false, [], [])
unfolding recv_message
recv_nothing zero lt = absurd (omega arith)
recv_nothing (suc n) lt = ground arith

round :
    (l : Layout) (disks : ℕ → Disk) (conn_fd fuel : ℕ) (s : Session) (r : ClientRequest)
    (bytes rest : Text)
    → Parts l r bytes
    → handle_connection l disks conn_fd (suc fuel) s (bytes ++ rest) ≡ (
        serve_request l (disks fuel) conn_fd s r >>= (λ (s', out).
          handle_connection l disks conn_fd fuel s' rest
          >>= (λ (s'', more). some (s'', out ++ more))))
unfolding handle_connection
round l disks conn_fd fuel s r bytes rest p =
    let got =
      recv_message-append l.server.header_size p.header (p.after ++ rest) p.header_len
        p.some_header in
    let magic : ((l.server.decode_header p.header).magic == 144) ≡ true = ground (arith, p.magic) in
    elim (Option-cases (serve_request l (disks fuel) conn_fd s r)) [
      | inl e ↦
          rw
            (
              p.both,
              append_assoc p.header p.after rest,
              got,
              magic,
              p.taken (disks fuel) conn_fd s rest,
              e,
            )
            refl
      | inr ((s', out), e) ↦
          rw
            (
              p.both,
              append_assoc p.header p.after rest,
              got,
              magic,
              p.taken (disks fuel) conn_fd s rest,
              e,
            )
            refl
    ]

last_round :
    (l : Layout) (disks : ℕ → Disk) (conn_fd fuel : ℕ) (s : Session)
    → 0 < l.server.header_size
    → handle_connection l disks conn_fd (suc fuel) s []
      ≡ some (record s { user = none }, close ∷ [])
unfolding handle_connection
last_round l disks conn_fd fuel s some_header =
    rw (recv_nothing l.server.header_size some_header) refl

after_same {ℓ κ} :
    {A : Type ℓ} {B : Type κ} (o : Option A) (f g : A → Option B)
    → ((a : A) → f a ≡ g a)
    → (o >>= f) ≡ (o >>= g)
after_same none f g same = refl
after_same (some a) f g same = same a

-- For the bytes of any requests one behind the other, each a header with a body of the announced length
-- that fits its struct and then the texts that the body announces, not empty, without a NUL and shorter
-- than 4096 bytes, and with one round of fuel more than there are requests: the loop over the connection
-- has the result of serving the contents of the requests in turn and then logging the client out, and is
-- undefined where serving one of them is.
pub handle_connection_lem :
    (l : Layout) (disks : ℕ → Disk) (conn_fd : ℕ) (s : Session) (rs : List ClientRequest)
    (bytes : Text)
    → 0 < l.server.header_size
    → SendsAll l rs bytes
    → handle_connection l disks conn_fd (suc (length rs)) s bytes
      ≡ serve_requests l disks conn_fd s rs
unfolding SendsAll serve_requests
handle_connection_lem l disks conn_fd s [] bytes some_header e =
    rw e (last_round l disks conn_fd 0 s some_header)
handle_connection_lem l disks conn_fd s (r ∷ rs) bytes some_header (first, behind, sends, all, e) =
    rw e (
      round l disks conn_fd (suc (length rs)) s r first behind (Sends-Parts l r first sends)
      ∙ after_same (serve_request l (disks (suc (length rs))) conn_fd s r) _ _ (λ (s', out).
        ap (λ x. x >>= (λ (s'', more). some (s'', out ++ more)))
          (handle_connection_lem l disks conn_fd s' rs behind some_header all)))
