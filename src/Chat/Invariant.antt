-- ===== src/Chat/Invariant.antt =====
-- The pairing of the chat server: who chats with whom is symmetric, and who waits chats with nobody.
use ntu_system_programming.Common.{
  ℕ, ◌≡◌, ◌≢◌, true, false, Bool, Option, none, some, arith, refl, if◌then◌else◌,
}
use mathlib.Core.Path.{subst}
use mathlib.Core.Option.{some-injective}
use ntu_system_programming.Chat.{Text, User, Library, Server, update, filter_key}
use ntu_system_programming.Chat.Handlers.{build_user, offer, forget, in_force, leave_open}

abbrev pub Symmetric : (ℕ → Option ℕ) → Type 0
Symmetric c = (a b : ℕ) → c a ≡ some b → (c b ≡ some a) × (a ≢ b)

-- The filter of a text returns for every user.
abbrev pub Returns : Library → Text → Type 0
Returns l t = (u : User) → l.accepts t u ≢ none

-- A text from which a user and a filter can be read, and the filter returns.
abbrev pub Usable : Library → Text → Type 0
Usable l t = (l.get_string t filter_key ≢ none) × (build_user l t ≢ none) × Returns l t

pub record IsValid (l : Library) (s : Server) : Type 0 where
  pub symmetric : Symmetric (s.chatting_to)
  pub idle : (a : ℕ) → s.available a ≡ true → (s.chatting_to a ≡ none) × (s.user_data a ≢ none)
  pub usable : (a : ℕ) (t : Text) → s.user_data a ≡ some t → Usable l t
  pub open_returns : (a : ℕ) (t : Text) → s.loaded a ≡ some t → Returns l t

pair-Symmetric :
    (c : ℕ → Option ℕ) (f m : ℕ)
    → Symmetric c
    → c f ≡ none
    → c m ≡ none
    → f ≢ m
    → Symmetric (update (update c f (some m)) m (some f))
pair-Symmetric c f m sym free1 free2 ne a b e = ground (arith, sym a b)

part-Symmetric :
    (c : ℕ → Option ℕ) (f p : ℕ)
    → Symmetric c
    → c f ≡ some p
    → Symmetric (update (update c p none) f none)
part-Symmetric c f p sym paired a b e = ground (arith, sym a b, sym f p)

pub offer-IsValid :
    (l : Library) (s : Server) (fd : ℕ) (t : Text)
    → IsValid l s
    → Usable l t
    → s.chatting_to fd ≡ none
    → IsValid l (offer (record s { user_data = update (s.user_data) fd (some t) }) fd)
offer-IsValid l s fd t v ok free = record {
  symmetric = v.symmetric;
  idle = λ a e. ground (arith, v.idle a);
  usable = λ a t' e. ground (arith, v.usable a t');
  open_returns = v.open_returns;
}

abbrev pub paired : Server → ℕ → ℕ → Server
paired s f m = record s {
  available = update (update (s.available) f false) m false;
  chatting_to = update (update (s.chatting_to) f (some m)) m (some f);
}

pub paired-IsValid :
    (l : Library) (s : Server) (f m : ℕ)
    → IsValid l s
    → s.chatting_to f ≡ none
    → s.chatting_to m ≡ none
    → f ≢ m
    → IsValid l (paired s f m)
paired-IsValid l s f m v free1 free2 ne = record {
  symmetric = pair-Symmetric (s.chatting_to) f m (v.symmetric) free1 free2 ne;
  idle = λ a e. ground (arith, v.idle a);
  usable = v.usable;
  open_returns = v.open_returns;
}

abbrev pub parted : Server → ℕ → ℕ → Server
parted s f p = record s {
  user_data = update (s.user_data) p none;
  available = update (s.available) p false;
  chatting_to = update (update (s.chatting_to) p none) f none;
}

pub parted-IsValid :
    (l : Library) (s : Server) (f p : ℕ)
    → IsValid l s
    → s.chatting_to f ≡ some p
    → IsValid l (parted s f p)
parted-IsValid l s f p v e = record {
  symmetric = part-Symmetric (s.chatting_to) f p (v.symmetric) e;
  idle = λ a h. ground (arith, v.idle a);
  usable = λ a t h. ground (arith, v.usable a t);
  open_returns = v.open_returns;
}

pub forget-IsValid : (l : Library) (s : Server) (f : ℕ) → IsValid l s → IsValid l (forget s f)
forget-IsValid l s f v = record {
  symmetric = v.symmetric;
  idle = λ a h. ground (arith, v.idle a);
  usable = λ a t h. ground (arith, v.usable a t);
  open_returns = v.open_returns;
}

in_force-Returns :
    (l : Library) (loaded : Option Text) (t : Text)
    → ((old : Text) → loaded ≡ some old → Returns l old)
    → Returns l t
    → Returns l (in_force loaded t)
in_force-Returns l none t olds returns = returns
in_force-Returns l (some old) t olds returns = olds old refl

pub valid_in_force :
    (l : Library) (s : Server) (a : ℕ) (t : Text)
    → IsValid l s
    → Usable l t
    → Returns l (in_force (s.loaded a) t)
valid_in_force l s a t v u = in_force-Returns l (s.loaded a) t (v.open_returns a) (u.2)

opened-Returns :
    (l : Library) (loaded stored : Option Text) (tried : Bool) (t : Text)
    → ((old : Text) → loaded ≡ some old → Returns l old)
    → ((text : Text) → stored ≡ some text → Returns l text)
    → (if tried
        then elim stored [ none ↦ loaded | some text ↦ some (in_force loaded text) ]
        else loaded)
      ≡ some t
    → Returns l t
opened-Returns l loaded stored false t olds texts e = olds t e
opened-Returns l loaded none true t olds texts e = olds t e
opened-Returns l loaded (some text) true t olds texts e =
    subst (Returns l) (some-injective _ _ e) (in_force-Returns l loaded text olds (texts text refl))

pub leave_open-IsValid :
    (l : Library) (s : Server) (fd : ℕ) (found : Option ℕ)
    → IsValid l s
    → IsValid l (leave_open s fd found)
unfolding leave_open
leave_open-IsValid l s fd found v = record {
  symmetric = v.symmetric;
  idle = v.idle;
  usable = v.usable;
  open_returns = λ a t e.
      opened-Returns l (s.loaded a) (s.user_data a) _ t (v.open_returns a)
        (λ text at. (v.usable a text at).2) e;
}
