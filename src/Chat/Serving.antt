-- ===== src/Chat/Serving.antt =====
-- The chat server over a history of events.
use ntu_system_programming.Common.{
  ℕ, ◌<◌, ◌≡◌, ◌≢◌, refl, ap, sym, ◌∙◌, true, false, none, some, List, [], ◌∷◌, ◌++◌, arith, lt→ltb,
  inl, inr, Bool-cases, length,
}
use mathlib.Core.Path.{subst}
use ntu_system_programming.Chat.{
  Text, Library, Server, Output, send, close, same_text, table_size, update, fd_setsize, cmd_key,
  try_match_cmd, send_message_cmd, quit_cmd, receive_message_cmd,
}
use ntu_system_programming.Chat.Handlers.{
  Event, connected, hung_up, received, receive, handle, send_message,
}
use ntu_system_programming.Chat.Invariant.{IsValid, Usable}
use ntu_system_programming.Chat.Matching.{Matches, line_of, try_match_lem}
use ntu_system_programming.Chat.Format.{process_json_format-some}
use ntu_system_programming.Chat.Leaving.{notice, quit_lem, disconnect_lem}

-- Events that the code is written for: new descriptors that an `fd_set` has room for, messages and
-- hang-ups of descriptors below 1000, texts that do not fill the buffer and hold a command, and
-- `try_match` only with a usable text from a client that chats with nobody.
unfoldable pub Admissible : Library → Server → Event → Type 0
Admissible l s (connected fd) = fd < fd_setsize
Admissible l s (hung_up fd) = fd < table_size
Admissible l s (received fd buffer) =
    (fd < table_size)
    × (length buffer < 4096)
    × (cmd : Text) × (l.get_string buffer cmd_key ≡ some cmd)
    × (same_text cmd try_match_cmd ≡ true → Usable l buffer × (s.chatting_to fd ≡ none))

abbrev pub Serves : Library → Server → Event → Type 0
Serves l s e = (s' : Server) × (out : List Output) × (handle l s e ≡ some (s', out)) × IsValid l s'

connected-Serves :
    (l : Library) (s : Server) (fd : ℕ) → IsValid l s → fd < fd_setsize → Serves l s (connected fd)
unfolding handle
connected-Serves l s fd v small = (
  record s { readset = update (s.readset) fd true },
  [],
  rw (lt→ltb fd fd_setsize small) refl,
  record {
    symmetric = v.symmetric;
    idle = v.idle;
    usable = v.usable;
    open_returns = v.open_returns;
  },
)

-- The line that a message becomes for the partner.
abbrev pub forwarded : Library → Text → Text
forwarded l buffer = line_of (l.print_with receive_message_cmd buffer)

send_message-some :
    (l : Library) (s : Server) (fd : ℕ) (buffer cmd : Text)
    → l.get_string buffer cmd_key ≡ some cmd
    → send_message l s fd buffer
      ≡ some (
          send fd buffer
          ∷ (elim (s.chatting_to fd) [ none ↦ [] | some p ↦ send p (forwarded l buffer) ∷ [] ]))
unfolding send_message
send_message-some l s fd buffer cmd at =
    rw (process_json_format-some _ (l.object_lines receive_message_cmd buffer cmd_key cmd at)) refl

abbrev Receives : Library → Server → ℕ → Text → Type 0
Receives l s fd buffer =
    (s' : Server) × (out : List Output) × (receive l s fd buffer ≡ some (s', out)) × IsValid l s'

receive-Serves :
    (l : Library) (s : Server) (fd : ℕ) (buffer cmd : Text)
    → IsValid l s
    → length buffer < 4096
    → l.get_string buffer cmd_key ≡ some cmd
    → (same_text cmd try_match_cmd ≡ true → Usable l buffer × (s.chatting_to fd ≡ none))
    → Receives l s fd buffer
unfolding receive Matches
receive-Serves l s fd buffer cmd v fits at ready = elim (Bool-cases (same_text cmd try_match_cmd)) [
  | inl trying ↦
      let (self, built, found) =
        try_match_lem l s fd buffer v ((ready trying).0) ((ready trying).1) in
      let (m, r, e, v', outcome) = found in
      (r.0, r.1, rw (lt→ltb (length buffer) 4096 fits, at, trying) e, v')
  | inr other ↦ elim (Bool-cases (same_text cmd send_message_cmd)) [
    | inl sending ↦ (
      s,
      send fd buffer
          ∷ (elim (s.chatting_to fd) [ none ↦ [] | some p ↦ send p (forwarded l buffer) ∷ [] ]),
      rw
          (
            lt→ltb (length buffer) 4096 fits,
            at,
            other,
            sending,
            send_message-some l s fd buffer cmd at,
          )
          refl,
      v,
    )
    | inr other' ↦ elim (Bool-cases (same_text cmd quit_cmd)) [
      | inl quitting ↦
          let (s', e, v', freed) = quit_lem l s fd buffer v in
          (
            s',
            send fd buffer ∷ notice s fd,
            rw (lt→ltb (length buffer) 4096 fits, at, other, other', quitting) e,
            v',
          )
      | inr unknown ↦
          (s, [], rw (lt→ltb (length buffer) 4096 fits, at, other, other', unknown) refl, v)
    ]
  ]
]

-- In a valid state every admissible event is served without the undefined behaviour of an index out of
-- range, of an item that is missing, of a text that does not fit its buffer or of a filter that does not
-- return, and the state stays valid. The state is valid where every stored text is usable, its filter
-- returns for every user, and so do the filters that are open; an event is admissible as described above.
pub handle-IsValid :
    (l : Library) (s : Server) (e : Event) → IsValid l s → Admissible l s e → Serves l s e
unfolding handle Admissible
handle-IsValid l s (connected fd) v ok = connected-Serves l s fd v ok
handle-IsValid l s (hung_up fd) v small =
    let (s', e, v', freed, cleared) = disconnect_lem l s fd v in
    (s', notice s fd ++ close fd ∷ [], rw (lt→ltb fd table_size small) e, v')
handle-IsValid l s (received fd buffer) v (small, fits, cmd, at, ready) =
    let (s', out, e, v') = receive-Serves l s fd buffer cmd v fits at ready in
    (s', out, rw (lt→ltb fd table_size small) e, v')

-- The states of a run of the server on admissible events.
pub data Reach (l : Library) : Server → Type 0 where
  start :
      {s : Server}
      → ((a : ℕ) → s.available a ≡ false)
      → ((a : ℕ) → s.chatting_to a ≡ none)
      → ((a : ℕ) → s.user_data a ≡ none)
      → ((a : ℕ) → s.loaded a ≡ none)
      → Reach l s
  after :
      {s s' : Server} (e : Event) (out : List Output)
      → Reach l s
      → Admissible l s e
      → handle l s e ≡ some (s', out)
      → Reach l s'

start-IsValid :
    (l : Library) (s : Server)
    → ((a : ℕ) → s.available a ≡ false)
    → ((a : ℕ) → s.chatting_to a ≡ none)
    → ((a : ℕ) → s.user_data a ≡ none)
    → ((a : ℕ) → s.loaded a ≡ none)
    → IsValid l s
start-IsValid l s idle alone bare shut = record {
  symmetric = λ a b e. ground (arith, alone a);
  idle = λ a e. ground (arith, idle a);
  usable = λ a t e. ground (arith, bare a);
  open_returns = λ a t e. ground (arith, shut a);
}

served-IsValid :
    (l : Library) (s s' : Server) (e : Event) (out : List Output)
    → handle l s e ≡ some (s', out)
    → Serves l s e
    → IsValid l s'
served-IsValid l s s' e out at (s2, out2, at2, v) =
    subst (λ x. IsValid l x) (ap (λ o. elim o [ none ↦ s | some r ↦ r.0 ]) (sym at2 ∙ at)) v

Reach-IsValid : {l : Library} {s : Server} → Reach l s → IsValid l s
Reach-IsValid {l} {s} (start idle alone bare shut) = start-IsValid l s idle alone bare shut
Reach-IsValid {l} (after {s} {s'} e out r ok at) =
    served-IsValid l s s' e out at (handle-IsValid l s e (Reach-IsValid r) ok)

-- In every state of a run two clients chat with each other: where `a` chats with `b`, `b` is another
-- client and chats with `a`, neither waits to be matched, and a message of `a`, which holds a command,
-- goes back to `a` and, printed with its command replaced and as one line, to `b` and nobody else.
pub send_message_lem :
    {l : Library} {s : Server} (a b : ℕ) (buffer cmd : Text)
    → Reach l s
    → s.chatting_to a ≡ some b
    → l.get_string buffer cmd_key ≡ some cmd
    → (s.chatting_to b ≡ some a)
      × (a ≢ b)
      × (s.available a ≡ false)
      × (s.available b ≡ false)
      × (send_message l s a buffer
          ≡ some (send a buffer ∷ send b (line_of (l.print_with receive_message_cmd buffer)) ∷ []))
send_message_lem {l} {s} a b buffer cmd r e at =
    let v = Reach-IsValid r in
    let (back, ne) = v.symmetric a b e in
    (
      back,
      ne,
      not_waiting v a b e,
      not_waiting v b a back,
      send_message-some l s a buffer cmd at ∙ rw e refl,
    )
  where
    not_waiting : IsValid l s → (x y : ℕ) → s.chatting_to x ≡ some y → s.available x ≡ false
    not_waiting v x y at = elim (Bool-cases (s.available x)) [
      | inl waits ↦ ground (arith, v.idle x waits)
      | inr other ↦ other
    ]
