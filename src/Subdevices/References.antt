-- ===== src/Subdevices/References.antt =====
-- The references that the cache of subdevices holds.
use Prim.{Unit, tt}
use inferno_windows.Status.{NtStatus, success, object_name_not_found}
use inferno_windows.Prelude.{
  ℕ, ◌+◌, ◌≡◌, sym, subst, arith, Bool, Bool-cases, Option, none, some, List, [], ◌∷◌, ◌++◌,
  if_true, if_false, inl, inr,
}
use inferno_windows.Objects.{one, one_of, same_name}
use inferno_windows.Subdevices.{
  Subdevice, Cache, release_entry, remove_entry, empty_entries, cache_subdevice,
  remove_cached_subdevice, empty_subdevice_cache,
}

-- How many references to `y` an entry, or a list of entries, holds.
abbrev pub held_by : ℕ → Subdevice → ℕ
held_by y e = one e.port y + one e.miniport y + one_of e.power y + one_of e.change y

abbrev pub held : ℕ → List Subdevice → ℕ
held y [] = 0
held y (e ∷ es) = held_by y e + held y es

held-append :
    (y : ℕ) (es : List Subdevice) (e : Subdevice)
    → held y (es ++ (e ∷ [])) ≡ held y es + held_by y e
held-append y [] e = omega arith
held-append y (x ∷ es) e = omega (arith, held-append y es e)

-- Each object has the references of others and those of the cache.
abbrev pub IsBalanced : (ℕ → ℕ) → Cache → Type 0
IsBalanced others s = (y : ℕ) → s.counts y ≡ others y + held y s.entries

-- The calls that change the cache.
pub data Op : Type 0 where
  cache : Bool → Option ℕ → Option ℕ → List ℕ → ℕ → ℕ → Op
  remove : List ℕ → Op
  empty : Op

unfoldable pub step : Op → Cache → Cache
step (cache room power change name port miniport) s =
    (cache_subdevice room power change name port miniport s).1
step (remove name) s = (remove_cached_subdevice name s).1
step empty s = empty_subdevice_cache s

unfoldable pub run : List Op → Cache → Cache
run [] s = s
run (o ∷ os) s = run os (step o s)

pub cache_subdevice-IsBalanced :
    (others : ℕ → ℕ) (room : Bool) (power change : Option ℕ) (name : List ℕ) (port miniport : ℕ)
    (s : Cache)
    → IsBalanced others s
    → IsBalanced others (cache_subdevice room power change name port miniport s).1
unfolding cache_subdevice
cache_subdevice-IsBalanced others room power change name port miniport s b y = ground (
  arith,
  b y,
  held-append y s.entries
      (record { name = name; port = port; miniport = miniport; power = power; change = change }),
)

-- A cache that a removal leaves, if it finds its entry.
abbrev IsBalancedIf : (ℕ → ℕ) → Option Cache → Type 0
IsBalancedIf others none = Unit {0}
IsBalancedIf others (some s) = IsBalanced others s

keep_entry :
    (others : ℕ → ℕ) (e : Subdevice) (o : Option Cache)
    → IsBalancedIf (λ y. others y + held_by y e) o
    → IsBalancedIf others
        (elim o [ none ↦ none | some s ↦ some (record s { entries = e ∷ s.entries }) ])
keep_entry others e none b = tt
keep_entry others e (some s) b = λ y. omega (arith, b y)

remove_entry-IsBalanced :
    (others : ℕ → ℕ) (name : List ℕ) (es : List Subdevice) (counts : ℕ → ℕ)
    → ((y : ℕ) → counts y ≡ others y + held y es)
    → IsBalancedIf others (remove_entry name es counts)
unfolding remove_entry release_entry
remove_entry-IsBalanced others name [] counts b = tt
remove_entry-IsBalanced others name (e ∷ es) counts b = elim (Bool-cases (same_name name e.name)) [
  | inl same ↦
      subst (IsBalancedIf others) (sym (if_true (same_name name e.name) _ _ same))
        (λ y. omega (arith, b y))
  | inr other ↦ subst (IsBalancedIf others) (sym (if_false (same_name name e.name) _ _ other)) (
      keep_entry others e (remove_entry name es counts) (
        remove_entry-IsBalanced (λ y. others y + held_by y e) name es counts
          (λ y. omega (arith, b y))))
]

pub remove_cached_subdevice-IsBalanced :
    (others : ℕ → ℕ) (name : List ℕ) (s : Cache)
    → IsBalanced others s
    → IsBalanced others (remove_cached_subdevice name s).1
unfolding remove_cached_subdevice
remove_cached_subdevice-IsBalanced others name s b =
    found (remove_entry name s.entries s.counts)
      (remove_entry-IsBalanced others name s.entries s.counts b)
  where
    found :
        (o : Option Cache)
        → IsBalancedIf others o
        → IsBalanced others
            (elim o as (λ (_ : Option Cache). NtStatus × Cache) [
              | none ↦ (object_name_not_found, s)
              | some s' ↦ (success, s')
            ]).1
    found none h = b
    found (some s') h = h

pub empty_entries-held :
    (others : ℕ → ℕ) (es : List Subdevice) (counts : ℕ → ℕ) (y : ℕ)
    → counts y ≡ others y + held y es
    → empty_entries es counts y ≡ others y
unfolding empty_entries
empty_entries-held others [] counts y b = omega (arith, b)
empty_entries-held others (e ∷ es) counts y b = empty_entries-held others es _ y (omega (arith, b))

-- After any calls that cache, remove and empty, whether or not they succeed, each object has the
-- references that it had from elsewhere and one for each interface in an entry of the cache.
pub run-IsBalanced :
    (os : List Op) (others : ℕ → ℕ) (s : Cache) → IsBalanced others s → IsBalanced others (run os s)
unfolding run step empty_subdevice_cache
run-IsBalanced [] others s b = b
run-IsBalanced (cache room power change name port miniport ∷ os) others s b =
    run-IsBalanced os others _
      (cache_subdevice-IsBalanced others room power change name port miniport s b)
run-IsBalanced (remove name ∷ os) others s b =
    run-IsBalanced os others _ (remove_cached_subdevice-IsBalanced others name s b)
run-IsBalanced (empty ∷ os) others s b =
    run-IsBalanced os others _
      (λ y. omega (arith, empty_entries-held others s.entries s.counts y (b y)))
