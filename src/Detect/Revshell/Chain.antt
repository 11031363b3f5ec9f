-- ===== src/Detect/Revshell/Chain.antt =====
-- findChain decides whether a history holds the sequence of a reverse shell.
use krnl_sentry.Base.{
  ℕ, suc, ◌+◌, ltb, ℤ, Bool, true, false, List, [], ◌∷◌, ◌++◌, Option, some, ◌≡◌, ◌≢◌, ◌⊎◌, ◌↔◌,
  refl, sym, ap, subst, ◌∙◌, arith, Bool-cases, inl, inr, length, drop, nat_eq, int_eq, int_beq_iff,
  is_set,
}
use mathlib.Core.List.{append_assoc}
use mathlib.Core.Option.{some-injective}
use krnl_sentry.Dict.{lookup, IsMap}
use krnl_sentry.Dict.Laws.{lookup-insert, insert-IsMap}
use krnl_sentry.Detect.Tracker.{HistoryEntry}
use krnl_sentry.Detect.Revshell.{
  ChainMatch, Anchors, no_anchors, anchors, is_socket_call, is_connect_call, is_redirection,
  redirect_step, redirections, redirected_after, enough, find_chain, min_redirected_fds,
}
use krnl_sentry.Detect.Revshell.Anchor.{Points, after_connect, after_socket, anchored, anchors_lem}

-- Some entry redirects the standard stream `fd`.
abbrev pub Redirects : ℤ → List HistoryEntry → Type 0
Redirects fd [] = ⊥
Redirects fd (e ∷ es) = ((is_redirection e ≡ true) × (e.arg1 ≡ fd)) ⊎ Redirects fd es

-- Two different standard streams are redirected.
abbrev pub RedirectsTwo : List HistoryEntry → Type 0
RedirectsTwo es = (fd : ℤ) × (fd' : ℤ) × (fd ≢ fd') × Redirects fd es × Redirects fd' es

-- The sequence of a reverse shell: a call of socket, later a call of connect, and after that calls
-- of dup2 or dup3 onto two different standard streams.
abbrev pub IsChain : List HistoryEntry → Type 0
IsChain hist =
    (pre : List HistoryEntry) × (s : HistoryEntry) × (mid : List HistoryEntry) × (c : HistoryEntry)
    × (post : List HistoryEntry) × (hist ≡ pre ++ (s ∷ (mid ++ (c ∷ post))))
    × (is_socket_call s ≡ true)
    × (is_connect_call c ≡ true)
    × RedirectsTwo post

-- The redirected descriptors of the second loop, against the entries.
abbrev IsIn : ℤ → List (ℤ × Bool) → Type 0
IsIn fd m = is_set (lookup fd m) ≡ true

redirect_step-IsMap :
    (sock : ℤ) (m : ChainMatch) (e : HistoryEntry)
    → IsMap m.redirected
    → IsMap (redirect_step sock m e).redirected
unfolding redirect_step
redirect_step-IsMap sock m e h = ground (arith, insert-IsMap e.arg1 true m.redirected h)

redirections-IsMap :
    (sock : ℤ) (m : ChainMatch) (es : List HistoryEntry)
    → IsMap m.redirected
    → IsMap (redirections sock m es).redirected
unfolding redirections
redirections-IsMap sock m [] h = h
redirections-IsMap sock m (e ∷ es) h =
    redirections-IsMap sock (redirect_step sock m e) es (redirect_step-IsMap sock m e h)

redirect_step_iff :
    (sock fd : ℤ) (m : ChainMatch) (e : HistoryEntry)
    → IsIn fd (redirect_step sock m e).redirected
      ↔ (IsIn fd m.redirected ⊎ ((is_redirection e ≡ true) × (e.arg1 ≡ fd)))
unfolding redirect_step
redirect_step_iff sock fd m e = elim (Bool-cases (is_redirection e)) [
  | inl hit ↦ rw hit (
    λ h. ground (arith, lookup-insert e.arg1 fd true m.redirected, int_beq_iff e.arg1 fd),
    λ h. ground (arith, lookup-insert e.arg1 fd true m.redirected, int_beq_iff e.arg1 fd),
  )
  | inr miss ↦ rw miss (λ h. inl h, λ h. ground arith)
]

widen : {B C D : Type 0} → B ⊎ C → B ⊎ (C ⊎ D)
widen (inl b) = inl b
widen (inr c) = inr (inl c)

-- Alternatives, through a function on the first ones.
regroup : {A B C D : Type 0} → A ⊎ D → (A → B ⊎ C) → B ⊎ (C ⊎ D)
regroup (inl a) f = widen (f a)
regroup (inr d) f = inr (inr d)

regroup_back : {A B C D : Type 0} → B ⊎ (C ⊎ D) → (B ⊎ C → A) → A ⊎ D
regroup_back (inl b) f = inl (f (inl b))
regroup_back (inr (inl c)) f = inl (f (inr c))
regroup_back (inr (inr d)) f = inr d

redirections_iff :
    (sock fd : ℤ) (m : ChainMatch) (es : List HistoryEntry)
    → IsIn fd (redirections sock m es).redirected ↔ (IsIn fd m.redirected ⊎ Redirects fd es)
unfolding redirections
redirections_iff sock fd m [] = (λ h. inl h, λ h. ground arith)
redirections_iff sock fd m (e ∷ es) =
    let next = redirections_iff sock fd (redirect_step sock m e) es in
    let step = redirect_step_iff sock fd m e in
    (λ h. regroup (next.0 h) step.0, λ h. next.1 (regroup_back h step.1))

-- A set of two or more descriptors holds two that differ, and the other way round.
abbrev HoldsTwo : List (ℤ × Bool) → Type 0
HoldsTwo m = (fd : ℤ) × (fd' : ℤ) × (fd ≢ fd') × IsIn fd m × IsIn fd' m

two_of_length :
    (m : List (ℤ × Bool)) → IsMap m → ltb (length m) min_redirected_fds ≡ false → HoldsTwo m
unfolding lookup
two_of_length [] v h = cc
two_of_length (x ∷ []) v h = cc
two_of_length ((a, p) ∷ (b, q) ∷ m) v h = (
  a,
  b,
  (λ e. ground (arith, int_beq_iff b a)),
  ground (arith, int_beq_iff a a),
  ground (arith, int_beq_iff a b, int_beq_iff b b),
)

length_of_two : (m : List (ℤ × Bool)) → HoldsTwo m → ltb (length m) min_redirected_fds ≡ false
unfolding lookup
length_of_two [] (a, b, ne, ha, hb) = cc
length_of_two ((c, p) ∷ []) (a, b, ne, ha, hb) = absurd (ne (only a ha ∙ sym (only b hb)))
  where
    only : (fd : ℤ) → IsIn fd ((c, p) ∷ []) → fd ≡ c
    only fd h = ground (arith, int_beq_iff c fd)
length_of_two (x ∷ y ∷ m) h = ground arith

-- The start of the second loop: nothing is redirected.
abbrev pub start_match : Anchors → ChainMatch
start_match a = record {
  start_ts = a.start_ts;
  dest_ip = a.dest_ip;
  dest_port = a.dest_port;
  redirected = [];
  fd_confirmed = false;
}

from_nothing : {P : Type 0} (fd : ℤ) → IsIn fd [] ⊎ P → P
unfolding lookup
from_nothing fd (inl h) = cc
from_nothing fd (inr p) = p

enough_iff :
    (a : Anchors) (post : List HistoryEntry)
    → (is_set (enough (redirections a.socket_fd (start_match a) post)) ≡ true) ↔ RedirectsTwo post
enough_iff a post =
    let m = redirections a.socket_fd (start_match a) post in
    let map = redirections-IsMap a.socket_fd (start_match a) post tt in
    let found = λ (fd : ℤ). redirections_iff a.socket_fd fd (start_match a) post in
    (
      λ h.
          let t = two_of_length m.redirected map (ground arith) in
          (
            t.0,
            t.1,
            t.2,
            from_nothing t.0 ((found t.0).0 t.3),
            from_nothing t.1 ((found t.1).0 t.4),
          ),
      λ t.
          rw
            (length_of_two m.redirected
              (t.0, t.1, t.2, (found t.0).1 (inr t.3), (found t.1).1 (inr t.4)))
            refl,
    )

-- What is redirected in the end of a list is redirected in the list.
Redirects-append : (fd : ℤ) (xs ys : List HistoryEntry) → Redirects fd ys → Redirects fd (xs ++ ys)
Redirects-append fd [] ys h = h
Redirects-append fd (x ∷ xs) ys h = inr (Redirects-append fd xs ys h)

RedirectsTwo-append : (xs ys : List HistoryEntry) → RedirectsTwo ys → RedirectsTwo (xs ++ ys)
RedirectsTwo-append xs ys (a, b, ne, ha, hb) =
    (a, b, ne, Redirects-append a xs ys ha, Redirects-append b xs ys hb)

-- The plain search finds a place in the list.
after_connect_split :
    (es post : List HistoryEntry)
    → after_connect es ≡ some post
    → (mid : List HistoryEntry) × (c : HistoryEntry) × (es ≡ mid ++ (c ∷ post))
      × (is_connect_call c ≡ true)
unfolding after_connect
after_connect_split [] post h = cc
after_connect_split (e ∷ es) post h = elim (Bool-cases (is_connect_call e)) [
  | inl here ↦ ([], e, ground arith, here)
  | inr later ↦
      let (mid, c, split, call) = after_connect_split es post (ground arith) in
      (e ∷ mid, c, ap (◌∷◌ e) split, call)
]

after_socket_split :
    (es post : List HistoryEntry) → after_socket es ≡ some post → RedirectsTwo post → IsChain es
unfolding after_socket
after_socket_split [] post h t = cc
after_socket_split (e ∷ es) post h t = elim (Bool-cases (is_socket_call e)) [
  | inl here ↦
      let (mid, c, split, call) = after_connect_split es post (ground arith) in
      ([], e, mid, c, post, ap (◌∷◌ e) split, here, call, t)
  | inr later ↦
      let (pre, s, mid, c, end, split, sock, conn, two) =
        after_socket_split es post (ground arith) t in
      (e ∷ pre, s, mid, c, end, ap (◌∷◌ e) split, sock, conn, two)
]

-- The plain search finds a place no later than any connect, and any socket before it.
abbrev EndsIn : List HistoryEntry → Option (List HistoryEntry) → Type 0
EndsIn post o =
    (found : List HistoryEntry) × (skipped : List HistoryEntry) × (o ≡ some found)
    × (found ≡ skipped ++ post)

after_connect-EndsIn :
    (mid : List HistoryEntry) (c : HistoryEntry) (post : List HistoryEntry)
    → is_connect_call c ≡ true
    → EndsIn post (after_connect (mid ++ (c ∷ post)))
unfolding after_connect
after_connect-EndsIn [] c post h = (post, [], rw h, refl)
after_connect-EndsIn (e ∷ mid) c post h = elim (Bool-cases (is_connect_call e)) [
  | inl here ↦ (mid ++ (c ∷ post), mid ++ (c ∷ []), rw here, sym (append_assoc mid (c ∷ []) post))
  | inr later ↦ rw later (after_connect-EndsIn mid c post h)
]

after_socket-EndsIn :
    (pre : List HistoryEntry) (s : HistoryEntry) (mid : List HistoryEntry) (c : HistoryEntry)
    (post : List HistoryEntry)
    → is_socket_call s ≡ true
    → is_connect_call c ≡ true
    → EndsIn post (after_socket (pre ++ (s ∷ (mid ++ (c ∷ post)))))
unfolding after_socket
after_socket-EndsIn [] s mid c post hs hc = rw hs (after_connect-EndsIn mid c post hc)
after_socket-EndsIn (e ∷ pre) s mid c post hs hc = elim (Bool-cases (is_socket_call e)) [
  | inl here ↦ rw here (
      subst (λ es. EndsIn post (after_connect es)) (append_assoc pre (s ∷ mid) (c ∷ post))
        (after_connect-EndsIn (pre ++ (s ∷ mid)) c post hc))
  | inr later ↦ rw later (after_socket-EndsIn pre s mid c post hs hc)
]

find_chain-anchored :
    (hist : List HistoryEntry)
    → find_chain hist
      ≡ redirected_after hist (anchors 0 no_anchors hist) (anchored (anchors 0 no_anchors hist))
unfolding find_chain redirected_after
find_chain-anchored hist =
    elim (Bool-cases (is_set (Anchors.socket_idx (anchors 0 no_anchors hist)))) [
      | inl set_ ↦ rw set_
      | inr unset ↦ rw unset
    ]

-- findChain at the place that the plain search finds.
find_chain_found :
    (hist : List HistoryEntry) (n : ℕ)
    → anchored (anchors 0 no_anchors hist) ≡ some (0 + n)
    → find_chain hist
      ≡ enough (
          redirections
            (Anchors.socket_fd (anchors 0 no_anchors hist))
            (start_match (anchors 0 no_anchors hist))
            (drop (suc n) hist))
unfolding redirected_after
find_chain_found hist n at =
    let after_n : 0 + n + 1 ≡ suc n = omega arith in
    find_chain-anchored hist
    ∙ (ap (redirected_after hist (anchors 0 no_anchors hist)) at
        ∙ ap
            (λ k. enough (
              redirections (Anchors.socket_fd (anchors 0 no_anchors hist))
                (start_match (anchors 0 no_anchors hist)) (drop k hist)))
            after_n)

-- findChain succeeds exactly on the histories that hold the sequence of a reverse shell, whichever
-- socket, connect and redirections it is made of.
pub find_chain_iff : (hist : List HistoryEntry) → (is_set (find_chain hist) ≡ true) ↔ IsChain hist
unfolding redirected_after
find_chain_iff hist = decide (anchors_lem hist)
  where
    a : Anchors
    a = anchors 0 no_anchors hist

    decide :
        Points 0 hist (after_socket hist) (anchored a)
        → (is_set (find_chain hist) ≡ true) ↔ IsChain hist
    decide (inl (nowhere, unset)) = (
      λ h. absurd (ground (arith, find_chain-anchored hist, ap (redirected_after hist a) unset)),
      λ (pre, s, mid, c, post, split, sock, conn, two).
          let (found, skipped, at, is_end) = after_socket-EndsIn pre s mid c post sock conn in
          absurd (ground (arith, nowhere, at, ap after_socket split)),
    )
    decide (inr (n, at, post_is)) =
        let post = drop (suc n) hist in
        let judged = find_chain_found hist n at in
        (
          λ h. after_socket_split hist post post_is ((enough_iff a post).0 (rw (sym judged) h)),
          λ (pre, s, mid, c, end, split, sock, conn, two).
              let (found, skipped, place, is_end) = after_socket-EndsIn pre s mid c end sock conn in
              let same : found ≡ post =
                some-injective _ _ (sym place ∙ (ap after_socket (sym split) ∙ post_is)) in
              rw judged (
                (enough_iff a post).1
                  (subst RedirectsTwo (sym is_end ∙ same) (RedirectsTwo-append skipped end two))),
        )
