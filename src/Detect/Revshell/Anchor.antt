-- ===== src/Detect/Revshell/Anchor.antt =====
-- The first loop of findChain against a plain search for the first socket and the first connect.
use krnl_sentry.Base.{
  ℕ, suc, ◌+◌, true, false, List, [], ◌∷◌, Option, none, some, ◌≡◌, refl, ap, ◌∙◌, arith,
  if◌then◌else◌, Bool-cases, inl, inr, drop, nat_eq, is_set, ◌⊎◌, ◌⊎◌,
}
use krnl_sentry.Detect.Tracker.{HistoryEntry}
use krnl_sentry.Detect.Revshell.{
  Anchors, no_anchors, is_socket_call, is_connect_call, anchor_step, anchors,
}

-- The entries after the first connect.
unfoldable pub after_connect : List HistoryEntry → Option (List HistoryEntry)
after_connect [] = none
after_connect (e ∷ rest) = if is_connect_call e then some rest else after_connect rest

-- The entries after the first connect that follows the first socket.
unfoldable pub after_socket : List HistoryEntry → Option (List HistoryEntry)
after_socket [] = none
after_socket (e ∷ rest) = if is_socket_call e then after_connect rest else after_socket rest

-- What one round does to the two indices.
module _ (i : ℕ) (a : Anchors) (e : HistoryEntry) where
  step_socket : is_set a.socket_idx ≡ true → is_set (anchor_step i a e).socket_idx ≡ true
  unfolding anchor_step
  step_socket s = ground arith

  step_connect : (n : ℕ) → a.connect_idx ≡ some n → (anchor_step i a e).connect_idx ≡ some n
  unfolding anchor_step
  step_connect n c = ground arith

  step_open :
      is_set a.socket_idx ≡ true
      → a.connect_idx ≡ none
      → (anchor_step i a e).connect_idx ≡ (if is_connect_call e then some i else none)
  unfolding anchor_step
  step_open s c = ground arith

  step_start :
      a.socket_idx ≡ none
      → a.connect_idx ≡ none
      → (is_set (anchor_step i a e).socket_idx ≡ is_socket_call e)
        × ((anchor_step i a e).connect_idx ≡ none)
  unfolding anchor_step
  step_start s c = ground arith

-- Once set, both stay.
anchors_socket :
    (i : ℕ) (a : Anchors) (es : List HistoryEntry)
    → is_set a.socket_idx ≡ true
    → is_set (anchors i a es).socket_idx ≡ true
unfolding anchors
anchors_socket i a [] s = s
anchors_socket i a (e ∷ es) s = anchors_socket (suc i) (anchor_step i a e) es (step_socket i a e s)

anchors_connect :
    (i n : ℕ) (a : Anchors) (es : List HistoryEntry)
    → a.connect_idx ≡ some n
    → (anchors i a es).connect_idx ≡ some n
unfolding anchors
anchors_connect i n a [] c = c
anchors_connect i n a (e ∷ es) c =
    anchors_connect (suc i) n (anchor_step i a e) es (step_connect i a e n c)

-- An index into a list that starts at `i`, against the entries after it.
abbrev pub Points : ℕ → List HistoryEntry → Option (List HistoryEntry) → Option ℕ → Type 0
Points i es post index =
    ((post ≡ none) × (index ≡ none))
    ⊎ ((n : ℕ) × (index ≡ some (i + n)) × (post ≡ some (drop (suc n) es)))

Points-cons :
    (i : ℕ) (e : HistoryEntry) (es : List HistoryEntry) (post : Option (List HistoryEntry))
    (index : Option ℕ)
    → Points (suc i) es post index
    → Points i (e ∷ es) post index
Points-cons i e es post index (inl h) = inl h
Points-cons i e es post index (inr (n, at, rest)) = inr (suc n, at ∙ ap some (omega arith), rest)

-- After the socket, the loop finds the first connect.
anchors-after_connect :
    (i : ℕ) (a : Anchors) (es : List HistoryEntry)
    → is_set a.socket_idx ≡ true
    → a.connect_idx ≡ none
    → Points i es (after_connect es) (anchors i a es).connect_idx
unfolding anchors after_connect
anchors-after_connect i a [] s c = inl (refl, c)
anchors-after_connect i a (e ∷ es) s c = elim (Bool-cases (is_connect_call e)) [
  | inl here ↦
      let found : (anchor_step i a e).connect_idx ≡ some i =
        step_open i a e s c ∙ ap (λ b. if b then some i else none) here in
      rw here (
        inr
          (0, anchors_connect (suc i) i (anchor_step i a e) es found ∙ ap some (omega arith), refl))
  | inr later ↦
      let none_yet : (anchor_step i a e).connect_idx ≡ none =
        step_open i a e s c ∙ ap (λ b. if b then some i else none) later in
      rw later (
        Points-cons i e es (after_connect es) (anchors (suc i) (anchor_step i a e) es).connect_idx
          (anchors-after_connect (suc i) (anchor_step i a e) es (step_socket i a e s) none_yet))
]

-- The connect that findChain goes by.
abbrev pub anchored : Anchors → Option ℕ
anchored a = if is_set a.socket_idx then a.connect_idx else none

anchors-after_socket :
    (i : ℕ) (a : Anchors) (es : List HistoryEntry)
    → a.socket_idx ≡ none
    → a.connect_idx ≡ none
    → Points i es (after_socket es) (anchored (anchors i a es))
unfolding anchors after_socket
anchors-after_socket i a [] s c = inl (refl, ground arith)
anchors-after_socket i a (e ∷ es) s c =
    let next = step_start i a e s c in
    elim (Bool-cases (is_socket_call e)) [
      | inl here ↦
          let set_now = next.0 ∙ here in
          rw (here, anchors_socket (suc i) (anchor_step i a e) es set_now)
            (Points-cons i e es (after_connect es)
              (anchors (suc i) (anchor_step i a e) es).connect_idx
              (anchors-after_connect (suc i) (anchor_step i a e) es set_now next.1))
      | inr later ↦ rw later (
          Points-cons i e es (after_socket es) (anchored (anchors (suc i) (anchor_step i a e) es)) (
            anchors-after_socket (suc i) (anchor_step i a e) es
              (unset (anchor_step i a e).socket_idx (next.0 ∙ later)) next.1))
    ]
  where
    unset : (o : Option ℕ) → is_set o ≡ false → o ≡ none
    unset none h = refl
    unset (some n) h = cc

-- The first loop finds the place after the first connect that follows the first socket.
pub anchors_lem :
    (es : List HistoryEntry) → Points 0 es (after_socket es) (anchored (anchors 0 no_anchors es))
anchors_lem es = anchors-after_socket 0 no_anchors es refl refl
