-- ===== src/Chat/Matching.antt =====
-- What a search of `try_match` finds, and to whom messages go.
use ntu_system_programming.Common.{
  ℕ, ◌<◌, ◌≡◌, ◌≢◌, refl, sym, Bool, true, false, Option, none, some, List, [], ◌∷◌, ◌++◌, arith,
  Option-cases, inl, inr,
}
use ntu_system_programming.Chat.{
  Text, User, Library, Server, Output, send, process_json_format, drop_newlines, table_size,
  matched_cmd, try_match_cmd, filter_key, update,
}
use ntu_system_programming.Chat.Invariant.{
  Returns, Usable, IsValid, paired, paired-IsValid, offer-IsValid, valid_in_force,
  leave_open-IsValid,
}
use ntu_system_programming.Chat.Search.{FoundFrom, search_from_lem}
use ntu_system_programming.Chat.Format.{process_json_format-some}
use ntu_system_programming.Chat.Handlers.{
  build_user, put_in_user_data, candidate, judge, search_from, pair_up, offer, try_match, in_force,
  leave_open,
}

-- The line that is sent for a printed text, and that of the echo.
abbrev pub line_of : Text → Text
line_of str = drop_newlines str ++ 10 ∷ []

abbrev pub echo_of : Library → Text
echo_of l = line_of (l.print_command try_match_cmd)

-- Client `i` waits, and the filters that dlopen gives for each of the two accept the other.
pub Mutual : Library → Server → ℕ → Text → User → ℕ → Type 0
Mutual l s fd own self i =
    (i ≢ fd)
    × (s.available i ≡ true)
    × (t : Text) × (s.user_data i ≡ some t)
    × (u : User) × (build_user l t ≡ some u)
    × (l.accepts (in_force (s.loaded fd) own) u ≡ some true)
    × (l.accepts (in_force (s.loaded i) t) self ≡ some true)

judge_total :
    (l : Library) (filter1 : Text) (self : User) (loaded stored : Option Text)
    → Returns l filter1
    → ((t : Text) → stored ≡ some t → (build_user l t ≢ none) × Returns l (in_force loaded t))
    → judge l filter1 self loaded stored ≢ none
unfolding judge
judge_total l filter1 self loaded none first usable = λ e. cc
judge_total l filter1 self loaded (some t) first usable =
    let (built, second) = usable t refl in
    elim (Option-cases (build_user l t)) [
      | inl stuck ↦ absurd (built stuck)
      | inr (u, at) ↦ elim (Option-cases (l.accepts filter1 u)) [
        | inl stuck ↦ absurd (first u stuck)
        | inr (agrees, one) ↦ rw (at, one) (ground (arith, second self))
      ]
    ]

candidate_total :
    (l : Library) (s : Server) (fd : ℕ) (own : Text) (self : User)
    → IsValid l s
    → Usable l own
    → (i : ℕ) → candidate l s fd own self i ≢ none
unfolding candidate
candidate_total l s fd own self v ok i = ground (
  arith,
  judge_total l (in_force (s.loaded fd) own) self (s.loaded i) (s.user_data i)
      (valid_in_force l s fd own v ok)
      (λ t e. ((v.usable i t e).1, valid_in_force l s i t v (v.usable i t e))),
)

judge_yes :
    (l : Library) (filter1 : Text) (self : User) (loaded stored : Option Text)
    → judge l filter1 self loaded stored ≡ some true
    → (t : Text) × (stored ≡ some t)
      × (u : User) × (build_user l t ≡ some u)
      × (l.accepts filter1 u ≡ some true)
      × (l.accepts (in_force loaded t) self ≡ some true)
unfolding judge
judge_yes l filter1 self loaded none e = cc
judge_yes l filter1 self loaded (some t) e = elim (Option-cases (build_user l t)) [
  | inl stuck ↦ ground arith
  | inr (u, built) ↦ elim (Option-cases (l.accepts filter1 u)) [
    | inl stuck ↦ ground arith
    | inr (agrees, one) ↦ (t, refl, u, built, ground arith, ground arith)
  ]
]

candidate_yes :
    (l : Library) (s : Server) (fd : ℕ) (own : Text) (self : User) (i : ℕ)
    → candidate l s fd own self i ≡ some true
    → Mutual l s fd own self i
unfolding candidate Mutual
candidate_yes l s fd own self i e =
    let (t, stored, u, built, a, b) =
      judge_yes l (in_force (s.loaded fd) own) self (s.loaded i) (s.user_data i) (ground arith) in
    (ground arith, ground arith, t, stored, u, built, a, b)

candidate_no :
    (l : Library) (s : Server) (fd : ℕ) (own : Text) (self : User) (i : ℕ)
    → candidate l s fd own self i ≡ some false
    → ¬ Mutual l s fd own self i
unfolding candidate judge Mutual
candidate_no l s fd own self i e (ne, waits, t, stored, u, built, a, b) = ground arith

-- What a search among `s` comes to: the state and the output of the handler. `res` is the echo.
pub Outcome :
    (l : Library) (s : Server) (fd : ℕ) (own : Text) (self : User)
    → Option ℕ
    → Server × List Output
    → Type 0
Outcome l s fd own self none (s', out) =
    ((i : ℕ) → i < table_size → ¬ Mutual l s fd own self i)
    × (s' ≡ leave_open s fd none)
    × (out ≡ send fd (echo_of l) ∷ [])
Outcome l s fd own self (some m) (s', out) =
    (m < table_size)
    × Mutual l s fd own self m
    × ((i : ℕ) → i < m → ¬ Mutual l s fd own self i)
    × (s' ≡ paired (leave_open s fd (some m)) fd m)
    × (t : Text) × (s.user_data m ≡ some t)
    × (out
        ≡ send fd (echo_of l)
          ∷ send m (line_of (l.print_with matched_cmd own))
          ∷ send fd (line_of (l.print_with matched_cmd t))
          ∷ [])

abbrev joined : Server → ℕ → Text → Server
joined s fd own = offer (record s { user_data = update (s.user_data) fd (some own) }) fd

-- `try_match` returns, in a valid state, with the outcome of a search.
unfoldable pub Matches : Library → Server → ℕ → Text → User → Type 0
Matches l s fd own self =
    (m : Option ℕ) × (r : Server × List Output) × (try_match l s fd own ≡ some r)
    × IsValid l (r.0)
    × Outcome l (joined s fd own) fd own self m r

module _ (l : Library) where
  echoed : process_json_format (l.print_command try_match_cmd) ≡ some (echo_of l)
  echoed = process_json_format-some _ (l.command_lines try_match_cmd)

  -- The text of an object is sent as a line.
  printed :
      (t f : Text)
      → l.get_string t filter_key ≡ some f
      → process_json_format (l.print_with matched_cmd t)
        ≡ some (line_of (l.print_with matched_cmd t))
  printed t f at = process_json_format-some _ (l.object_lines matched_cmd t filter_key f at)

  printed_stored :
      (t : Text)
      → Usable l t
      → process_json_format (l.print_with matched_cmd t)
        ≡ some (line_of (l.print_with matched_cmd t))
  printed_stored t u = elim (Option-cases (l.get_string t filter_key)) [
    | inl gone ↦ absurd ((u.0) gone)
    | inr (f, at) ↦ printed t f at
  ]

module _ (l : Library) (s : Server) (fd : ℕ) (own f : Text) (self : User) where
  abbrev test : ℕ → Option Bool
  test = candidate l (joined s fd own) fd own self

  finish :
      (m : Option ℕ)
      → l.get_string own filter_key ≡ some f
      → build_user l own ≡ some self
      → search_from test table_size 0 ≡ some m
      → FoundFrom test table_size 0 m
      → IsValid l (joined s fd own)
      → s.chatting_to fd ≡ none
      → Matches l s fd own self
  unfolding Matches try_match put_in_user_data leave_open pair_up Outcome Mutual
  finish none f_at self_at found_at found v free = (
    none,
    (leave_open (joined s fd own) fd none, send fd (echo_of l) ∷ []),
    rw (echoed l, f_at, self_at, found_at) refl,
    leave_open-IsValid l (joined s fd own) fd none v,
    (λ i hi. candidate_no l (joined s fd own) fd own self i (found i (omega arith) hi), refl, refl),
  )
  finish (some m) f_at self_at found_at (lo, hi, hit, before) v free =
      let waiting = candidate_yes l (joined s fd own) fd own self m hit in
      let (ne, waits, t, stored, u, built, a, b) = waiting in
      let after = leave_open (joined s fd own) fd (some m) in
      (
        some m,
        (
          paired after fd m,
          send fd (echo_of l)
              ∷ send m (line_of (l.print_with matched_cmd own))
              ∷ send fd (line_of (l.print_with matched_cmd t))
              ∷ [],
        ),
        rw
            (
              echoed l,
              f_at,
              self_at,
              found_at,
              stored,
              printed l own f f_at,
              printed_stored l t (v.usable m t stored),
            )
            refl,
        paired-IsValid l after fd m (leave_open-IsValid l (joined s fd own) fd (some m) v) free
            ((v.idle m waits).0) (λ e. ne (sym e)),
        (
          hi,
          waiting,
          λ i lt. candidate_no l (joined s fd own) fd own self i (before i (omega arith) lt),
          refl,
          t,
          stored,
          refl,
        ),
      )

-- In a valid state `try_match`, of a client that chats with nobody and sends a usable text, whose filter
-- returns for every user, returns with a valid state. The least other waiting client such that both
-- filters accept is paired with it: both leave the pool, and each of the two gets the text of the other.
-- Where there is none, the client waits, and nothing but its echo is sent. The filter of a client is that
-- of its text, or the one that is open under its name already; the search leaves open the filters of the
-- waiting clients that it refused.
pub try_match_lem :
    (l : Library) (s : Server) (fd : ℕ) (own : Text)
    → IsValid l s
    → Usable l own
    → s.chatting_to fd ≡ none
    → (self : User) × (build_user l own ≡ some self) × Matches l s fd own self
try_match_lem l s fd own v (filter, user, returns) free =
    elim (Option-cases (l.get_string own filter_key)) [
      | inl gone ↦ absurd (filter gone)
      | inr (f, f_at) ↦ elim (Option-cases (build_user l own)) [
        | inl gone ↦ absurd (user gone)
        | inr (self, self_at) ↦
            let v' = offer-IsValid l s fd own v (filter, user, returns) free in
            let (m, found_at, found) =
              search_from_lem (test l s fd own f self) table_size 0
                (candidate_total l (joined s fd own) fd own self v' (filter, user, returns)) in
            (self, self_at, finish l s fd own f self m f_at self_at found_at found v' free)
      ]
    ]
