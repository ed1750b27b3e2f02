-- ===== src/Connections/Undo.antt =====
-- What is connected after ConnectTopologies and DisconnectTopologies.
use inferno_windows.Prelude.{
  ℕ, zero, suc, ◌≡◌, ◌⊎◌, inl, inr, refl, ap, sym, ◌∙◌, subst, arith, Bool, true, false, Bool-cases,
  ◌||◌, List, [], ◌∷◌, ◌++◌, length, take, take-all, if◌then◌else◌, if_true, if_false, if_both,
  append-nil, append_assoc,
}
use inferno_windows.Status.{NtStatus, success, nt_success}
use inferno_windows.Connections.{
  Connection, Link, Ports, same_link, has_link, remove_link, link_of, register_link,
  unregister_link, connect_all, disconnect_all, disconnect_topologies, connect_topologies,
}

-- The links of a table.
abbrev pub links_of : ℕ → ℕ → List Connection → List Link
links_of topology wave [] = []
links_of topology wave (c ∷ cs) = link_of topology wave c ∷ links_of topology wave cs

-- None of these links is registered.
abbrev pub AreNew : List Link → List Link → Type 0
AreNew links [] = true ≡ true
AreNew links (l ∷ ls) = (has_link l links ≡ false) × AreNew links ls

-- A connection that is registered can be unregistered.
abbrev pub Unregisters : Ports → Type 0
Unregisters p =
    (l : Link) (links : List Link)
    → has_link l links ≡ true
    → nt_success (p.unregister l links) ≡ true

same_link_self : (l : Link) → same_link l l ≡ true
same_link_self l = ground arith

has_link-append : (l : Link) (links ls : List Link) → has_link l (links ++ (l ∷ ls)) ≡ true
has_link-append l [] ls = ground (arith, same_link_self l)
has_link-append l (x ∷ xs) ls = ground (arith, has_link-append l xs ls)

or_left : (a b : Bool) → a || b ≡ false → a ≡ false
or_left a b h = ground (arith, h)

or_right : (a b : Bool) → a || b ≡ false → b ≡ false
or_right a b h = ground (arith, h)

remove_link_absent :
    (l : Link) (links : List Link) → has_link l links ≡ false → remove_link l links ≡ links
remove_link_absent l [] h = refl
remove_link_absent l (x ∷ xs) h =
    if_false (same_link l x) _ _ (or_left (same_link l x) (has_link l xs) h)
    ∙ ap (◌∷◌ x) (remove_link_absent l xs (or_right (same_link l x) (has_link l xs) h))

remove_link-append :
    (l : Link) (links ls : List Link)
    → has_link l links ≡ false
    → remove_link l (links ++ (l ∷ ls)) ≡ links ++ ls
remove_link-append l [] ls h = if_true (same_link l l) _ _ (same_link_self l)
remove_link-append l (x ∷ xs) ls h =
    if_false (same_link l x) _ _ (or_left (same_link l x) (has_link l xs) h)
    ∙ ap (◌∷◌ x) (remove_link-append l xs ls (or_right (same_link l x) (has_link l xs) h))

unregister_link_absent :
    (status : NtStatus) (l : Link) (links : List Link)
    → has_link l links ≡ false
    → unregister_link status l links ≡ links
unregister_link_absent status l links h =
    if_both (λ (ls : List Link). ls ≡ links) (nt_success status) (remove_link_absent l links h) refl

-- A table that is not connected leaves nothing to disconnect.
disconnect_absent :
    (p : Ports) (topology wave : ℕ) (cs : List Connection) (status : NtStatus) (links : List Link)
    → AreNew links (links_of topology wave cs)
    → (disconnect_all p topology wave status cs links).1 ≡ links
unfolding disconnect_all
disconnect_absent p topology wave [] status links new = refl
disconnect_absent p topology wave (c ∷ cs) status links (fresh, new) =
    let l = link_of topology wave c in
    let next = p.unregister l links in
    ap
      (λ (ls : List Link).
        (disconnect_all p topology wave (if nt_success next then success else next) cs ls).1)
      (unregister_link_absent next l links fresh)
    ∙ disconnect_absent p topology wave cs (if nt_success next then success else next) links new

-- The first connections of a table are undone by disconnecting all of the table.
disconnect_undo :
    (p : Ports) (topology wave : ℕ) (cs : List Connection) (status : NtStatus) (links : List Link)
    (k : ℕ)
    → Unregisters p
    → AreNew links (links_of topology wave cs)
    → (disconnect_all p topology wave status cs (links ++ take k (links_of topology wave cs))).1
      ≡ links
unfolding disconnect_all
disconnect_undo p topology wave cs status links zero u new =
    subst (λ (ls : List Link). (disconnect_all p topology wave status cs ls).1 ≡ links)
      (sym (append-nil links)) (disconnect_absent p topology wave cs status links new)
disconnect_undo p topology wave [] status links (suc k) u new = append-nil links
disconnect_undo p topology wave (c ∷ cs) status links (suc k) u (fresh, new) =
    let l = link_of topology wave c in
    let ls = take k (links_of topology wave cs) in
    let next = p.unregister l (links ++ (l ∷ ls)) in
    ap
      (λ (x : List Link).
        (disconnect_all p topology wave (if nt_success next then success else next) cs x).1)
      (if_true (nt_success next) _ _ (u l (links ++ (l ∷ ls)) (has_link-append l links ls))
        ∙ remove_link-append l links ls fresh)
    ∙ disconnect_undo p topology wave cs (if nt_success next then success else next) links k u new

-- The loop connects the whole table, or fails behind some of its connections.
abbrev IsConnected : ℕ → ℕ → List Connection → List Link → NtStatus × List Link → Type 0
IsConnected topology wave cs links (status, made) =
    ((nt_success status ≡ true) × (made ≡ links ++ links_of topology wave cs))
    ⊎ ((nt_success status ≡ false)
        × ((k : ℕ) × (made ≡ links ++ take k (links_of topology wave cs))))

one_more :
    (topology wave : ℕ) (c : Connection) (cs : List Connection) (links : List Link)
    (r : NtStatus × List Link)
    → IsConnected topology wave cs (links ++ (link_of topology wave c ∷ [])) r
    → IsConnected topology wave (c ∷ cs) links r
one_more topology wave c cs links (status, made) (inl (a, b)) =
    inl (a, b ∙ append_assoc links (link_of topology wave c ∷ []) (links_of topology wave cs))
one_more topology wave c cs links (status, made) (inr (a, (k, b))) = inr (
  a,
  (
    suc k,
    b ∙ append_assoc links (link_of topology wave c ∷ []) (take k (links_of topology wave cs)),
  ),
)

connect_all_failed :
    (p : Ports) (topology wave : ℕ) (status : NtStatus) (cs : List Connection) (links : List Link)
    → nt_success status ≡ false
    → connect_all p topology wave status cs links ≡ (status, links)
unfolding connect_all
connect_all_failed p topology wave status [] links h = refl
connect_all_failed p topology wave status (c ∷ cs) links h = if_false (nt_success status) _ _ h

connect_all-IsConnected :
    (p : Ports) (topology wave : ℕ) (status : NtStatus) (cs : List Connection) (links : List Link)
    → nt_success status ≡ true
    → IsConnected topology wave cs links (connect_all p topology wave status cs links)
unfolding connect_all
connect_all-IsConnected p topology wave status [] links h = inl (h, sym (append-nil links))
connect_all-IsConnected p topology wave status (c ∷ cs) links h =
    subst (IsConnected topology wave (c ∷ cs) links) (sym (if_true (nt_success status) _ _ h))
      (elim (Bool-cases (nt_success next))
        as (λ (_ : (nt_success next ≡ true) ⊎ (nt_success next ≡ false)).
          IsConnected topology wave (c ∷ cs) links
            (connect_all p topology wave next cs (register_link next l links))) [
              | inl good ↦
                  subst
                    (λ (ls : List Link).
                      IsConnected topology wave (c ∷ cs) links
                        (connect_all p topology wave next cs ls))
                    (sym (if_true (nt_success next) _ _ good))
                    (one_more topology wave c cs links _
                      (connect_all-IsConnected p topology wave next cs (links ++ (l ∷ [])) good))
              | inr bad ↦
                  subst (IsConnected topology wave (c ∷ cs) links)
                    (sym (connect_all_failed p topology wave next cs _ bad))
                    (inr (bad, (0, if_false (nt_success next) _ _ bad ∙ sym (append-nil links))))
            ])
  where
    l : Link
    l = link_of topology wave c

    next : NtStatus
    next = p.register l links

abbrev Outcome : Ports → ℕ → ℕ → List Connection → List Link → NtStatus × List Link → Type 0
Outcome p topology wave cs links (status, made) =
    ((nt_success status ≡ true) × (made ≡ links ++ links_of topology wave cs))
    ⊎ ((nt_success status ≡ false) × (made ≡ links))

-- A table of connections that are new is connected as a whole and in its order, or ConnectTopologies
-- fails and no connection is left, where a connection that is registered can be unregistered.
pub connect_topologies_whole :
    (p : Ports) (topology wave : ℕ) (cs : List Connection) (links : List Link)
    → Unregisters p
    → nt_success p.query ≡ true
    → AreNew links (links_of topology wave cs)
    → ((nt_success (connect_topologies p topology wave cs links).0 ≡ true)
        × ((connect_topologies p topology wave cs links).1 ≡ links ++ links_of topology wave cs))
      ⊎ ((nt_success (connect_topologies p topology wave cs links).0 ≡ false)
          × ((connect_topologies p topology wave cs links).1 ≡ links))
unfolding connect_topologies disconnect_topologies
connect_topologies_whole p topology wave cs links u query new =
    elim (connect_all-IsConnected p topology wave success cs links refl)
      as (λ (_ : IsConnected topology wave cs links (connect_all p topology wave success cs links)).
        Outcome p topology wave cs links (connect_topologies p topology wave cs links)) [
          | inl (good, made) ↦
              subst (Outcome p topology wave cs links) (sym (if_true (nt_success r.0) _ _ good))
                (inl (good, made))
          | inr (bad, (k, made)) ↦
              subst (Outcome p topology wave cs links) (sym (if_false (nt_success r.0) _ _ bad)) (
                inr (
                  bad,
                  ap (λ (x : NtStatus × List Link). x.1) (if_true (nt_success p.query) _ _ query)
                      ∙ ap (λ (ls : List Link). (disconnect_all p topology wave p.query cs ls).1)
                          made
                      ∙ disconnect_undo p topology wave cs p.query links k u new,
                ))
        ]
  where
    r : NtStatus × List Link
    r = connect_all p topology wave success cs links

-- Disconnecting a table that was connected gives back what was connected before.
pub disconnect-connect :
    (p : Ports) (topology wave : ℕ) (cs : List Connection) (links : List Link)
    → Unregisters p
    → nt_success p.query ≡ true
    → AreNew links (links_of topology wave cs)
    → nt_success (connect_topologies p topology wave cs links).0 ≡ true
    → (disconnect_topologies p topology wave cs (connect_topologies p topology wave cs links).1).1
      ≡ links
unfolding disconnect_topologies
disconnect-connect p topology wave cs links u query new good =
    elim (connect_topologies_whole p topology wave cs links u query new) [
      | inl (_, made) ↦
          ap (λ (x : NtStatus × List Link). x.1) (if_true (nt_success p.query) _ _ query)
          ∙ ap (λ (ls : List Link). (disconnect_all p topology wave p.query cs ls).1)
              (made
                ∙ ap (λ (ls : List Link). links ++ ls)
                    (sym (take-all (length (links_of topology wave cs)) _ (omega arith))))
          ∙ disconnect_undo p topology wave cs p.query links (length (links_of topology wave cs)) u
              new
      | inr (bad, _) ↦ absurd (ground (arith, good, bad))
    ]
