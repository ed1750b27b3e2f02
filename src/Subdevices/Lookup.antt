-- ===== src/Subdevices/Lookup.antt =====
-- What the cache of subdevices gives back.
use inferno_windows.Prelude.{
  ℕ, ◌<◌, ◌≡◌, refl, ap, sym, subst, ◌∙◌, arith, true, Bool-cases, Option, none, some, List, [],
  ◌∷◌, ◌++◌, length, ltb, lt→ltb, if_true, if_false, inl, inr,
}
use inferno_windows.Status.{NtStatus, success}
use inferno_windows.Objects.{same_name, add_ref, add_ref_of}
use inferno_windows.Subdevices.{
  Subdevice, Cache, max_path, find_entry, get_found, get_cached_subdevice, cache_subdevice,
}

same_name_self : (name : List ℕ) → same_name name name ≡ true
same_name_self [] = refl
same_name_self (x ∷ xs) = ground (arith, same_name_self xs)

find_entry-append :
    (name : List ℕ) (es : List Subdevice) (e : Subdevice)
    → find_entry name es ≡ none
    → same_name name e.name ≡ true
    → find_entry name (es ++ (e ∷ [])) ≡ some e
find_entry-append name [] e h same = if_true (same_name name e.name) _ _ same
find_entry-append name (x ∷ es) e h same = elim (Bool-cases (same_name name x.name)) [
  | inl hit ↦ absurd (ground (arith, h, hit))
  | inr miss ↦
      if_false (same_name name x.name) _ _ miss
      ∙ find_entry-append name es e (ground (arith, h, miss)) same
]

-- A subdevice that is cached under a new name of fewer than 260 characters is found under it: the
-- caller gets both of its interfaces, each with a reference more than the cache took.
pub get-cache :
    (power change : Option ℕ) (name : List ℕ) (port miniport : ℕ) (s : Cache)
    → length name < max_path
    → find_entry name s.entries ≡ none
    → let s' = (cache_subdevice true power change name port miniport s).1 in
      get_cached_subdevice name s' ≡ (
        success,
        some (port, miniport),
        record s' { counts = add_ref miniport (add_ref port s'.counts) },
      )
unfolding cache_subdevice get_cached_subdevice get_found
get-cache power change name port miniport s short new =
    subst Found (sym (if_true (ltb (length name) max_path) _ _ (lt→ltb _ _ short))) (
      ap (λ (o : Option Subdevice). get_found o s')
        (find_entry-append name s.entries e new (same_name_self name)))
  where
    e : Subdevice
    e = record { name = name; port = port; miniport = miniport; power = power; change = change }

    s' : Cache
    s' = record {
      entries = s.entries ++ (e ∷ []);
      counts = add_ref_of change (add_ref_of power (add_ref miniport (add_ref port s.counts)));
    }

    Found : NtStatus × Cache → Type 0
    Found (status, t) = get_cached_subdevice name t ≡ (
      success,
      some (port, miniport),
      record t { counts = add_ref miniport (add_ref port t.counts) },
    )
