-- ===== src/BoxClient/Stored.antt =====
-- What the server does with the data of a file that the client sends.
use ntu_system_programming.Common.{
  ℕ, zero, suc, ◌+◌, ◌*◌, ◌/◌, ◌^◌, ◌≤◌, ◌<◌, ◌≡◌, refl, ap, ◌∙◌, Bool, true, false, none, some,
  List, [], ◌∷◌, ◌++◌, ◌==◌, if◌then◌else◌, length, take, drop, take-append, drop-append, arith,
  length-append, length-drop, take-append-drop, Bool-cases, Option-cases, inl, inr,
}
use mathlib.Core.Path.{subst}
use mathlib.Core.List.{append_assoc, append-nil}
use ntu_system_programming.BoxServer.{
  Text, is_dir, Meta, World, Action, mkdir, chmod, utime, truncate,
}
use ntu_system_programming.BoxServer.Accounts.{response}
use ntu_system_programming.BoxServer.Files.{take_data, receive_file}
use ntu_system_programming.BoxServer.Transfer.{Writes, receive_file_lem, recv_message-append}
use ntu_system_programming.BoxClient.{Wire, Local}
use ntu_system_programming.BoxClient.Messages.{request, file_struct, send_parts, data_message}
use ntu_system_programming.BoxClient.Agree.{Agree}

-- The bytes of a file as the client finds it; none of a directory or of a file that it cannot open.
unfoldable pub content_of : Local → Text
content_of l = if is_dir (l.stat) then [] else elim l.contents [ none ↦ [] | some file ↦ file ]

send_parts_all : (fuel : ℕ) (file : Text) → length file ≤ fuel * 4096 → send_parts fuel file ≡ file
unfolding send_parts
send_parts_all zero [] enough = refl
send_parts_all zero (b ∷ file) enough = absurd (omega arith)
send_parts_all (suc fuel) [] enough = refl
send_parts_all (suc fuel) (b ∷ file) enough =
    let more : (length (b ∷ file) == 0) ≡ false = ground arith in
    rw
      (
        more,
        send_parts_all fuel (drop 4096 (b ∷ file)) (omega (arith, length-drop 4096 (b ∷ file))),
      )
      (take-append-drop 4096 (b ∷ file))

pub dir_content : (l : Local) → is_dir (l.stat) ≡ true → content_of l ≡ []
unfolding content_of
dir_content l a_dir = rw a_dir refl

pub data_message-content :
    (x : Wire) (id : ℕ) (l : Local)
    → data_message x id l ≡ file_struct x id (length (content_of l)) ++ content_of l
unfolding data_message content_of
data_message-content x id l = elim (Bool-cases (is_dir (l.stat))) [
  | inl a_dir ↦ rw (a_dir, append-nil (file_struct x id 0)) refl
  | inr a_file ↦ elim (Option-cases (l.contents)) [
    | inl shut ↦ rw (a_file, shut, append-nil (file_struct x id 0)) refl
    | inr (file, found) ↦
        rw (a_file, found, send_parts_all (length file / 4096 + 1) file (omega arith)) refl
  ]
]

-- What the server does behind its answer MORE: the file is made a directory or is emptied and gets the
-- bytes that the client finds, mode and times are set for a new path, and it answers.
pub touched : Local → Text → Bool → List Action
touched l path change =
    if change
    then chmod path (l.stat.st_mode) ∷ utime path (l.stat.st_atime) (l.stat.st_mtime) ∷ []
    else []

abbrev pub ending : ℕ → Local → Text → Bool → List Action
ending fd l path change = touched l path change ++ response 2 0 fd ∷ []

pub Stored : World → ℕ → Text → Local → Bool → Bool → List Action → Type 0
Stored w fd path l change true tail = tail ≡ (mkdir path ∷ []) ++ ending fd l path change
Stored w fd path l change false tail =
    (parts : List Action) × Writes path parts (content_of l)
    × (tail ≡ (truncate path ∷ (if w.opens path then parts else [])) ++ ending fd l path change)

module _ {w : World} {x : Wire} (agree : Agree w x) where
  -- With the parts that the loop over the file writes.
  take_data-Stored :
      (fd : ℕ) (path : Text) (m : Meta) (change : Bool) (l : Local) (rest : Text)
      → m.stat ≡ l.stat
      → length (content_of l) < 2 ^ 64
      → (parts : List Action)
      → receive_file
          (length (content_of l) / 4096 + 1)
          path
          (length (content_of l))
          (content_of l ++ rest)
        ≡ (drop (length (content_of l)) (content_of l ++ rest), parts)
      → Writes path parts (take (length (content_of l)) (content_of l ++ rest))
      → (tail : List Action) × (take_data w fd path m change (data_message x fd l ++ rest)
          ≡ (rest, tail))
        × Stored w fd path l change (is_dir (l.stat)) tail
  unfolding take_data Stored touched
  take_data-Stored fd path m change l rest same small parts e writes =
      let c = content_of l in
      let struct_len : length (file_struct x fd (length c)) ≡ w.file_size = omega (
        arith,
        length-append (x.encode_header (request 2 fd (x.file_len))) (x.encode_file (length c)),
        agree.header_len (request 2 fd (x.file_len)),
        agree.file_len (length c),
        agree.file_size,
      ) in
      let came =
        recv_message-append (w.file_size) (file_struct x fd (length c)) (c ++ rest) struct_len
          (omega (arith, agree.file_size, agree.header_some)) in
      let read = agree.file (request 2 fd (x.file_len)) (length c) small in
      let stream : data_message x fd l ++ rest ≡ file_struct x fd (length c) ++ (c ++ rest) =
        ap (λ t. t ++ rest) (data_message-content x fd l)
        ∙ append_assoc (file_struct x fd (length c)) c rest in
      elim (Bool-cases (is_dir (l.stat))) [
        | inl a_dir ↦ (
          (mkdir path ∷ []) ++ ending fd l path change,
          rw (stream, came, read, e, same, a_dir)
              (ap (λ t. (t ++ rest, (mkdir path ∷ []) ++ ending fd l path change))
                (dir_content l a_dir)),
          rw a_dir refl,
        )
        | inr a_file ↦ (
          (truncate path ∷ (if w.opens path then parts else [])) ++ ending fd l path change,
          rw (stream, came, read, e, same, a_file, drop-append c rest) refl,
          rw a_file (parts, subst (λ t. Writes path parts t) (take-append c rest) writes, refl),
        )
      ]

  pub take_data_lem :
      (fd : ℕ) (path : Text) (m : Meta) (change : Bool) (l : Local) (rest : Text)
      → m.stat ≡ l.stat
      → length (content_of l) < 2 ^ 64
      → (tail : List Action) × (take_data w fd path m change (data_message x fd l ++ rest)
          ≡ (rest, tail))
        × Stored w fd path l change (is_dir (l.stat)) tail
  take_data_lem fd path m change l rest same small =
      let c = content_of l in
      let (parts, e, writes) =
        receive_file_lem (length c / 4096 + 1) path (length c) (c ++ rest) (omega arith)
          (omega (arith, length-append c rest)) in
      take_data-Stored fd path m change l rest same small parts e writes
