-- ===== src/Subdevices.antt =====
-- inferno_driver/common.cpp, the cache of subdevices of CAdapterCommon: GetCachedSubdevice,
-- CacheSubdevice, RemoveCachedSubdevice and EmptySubdeviceCache. An interface is the number of its
-- object; the reference counts of all objects are a function.
pub mod References
pub mod Lookup
mod Tests
use inferno_windows.Prelude.{
  ℕ, ◌+◌, ◌-◌, Bool, true, false, ◌&&◌, Option, none, some, List, [], ◌∷◌, ◌++◌, length, ltb, ◌==◌,
  if◌then◌else◌,
}
use inferno_windows.Objects.{same_name, one_of, add_ref, add_ref_of, release, release_of}
use inferno_windows.Status.{
  NtStatus, success, insufficient_resources, object_name_not_found, failure,
}

-- MINIPAIR_UNKNOWN. A name is its characters, with no terminator.
pub record Subdevice : Type 0 where
  pub name : List ℕ
  pub port : ℕ
  pub miniport : ℕ
  pub power : Option ℕ
  pub change : Option ℕ

-- m_SubdeviceCache, with the counts.
pub record Cache : Type 0 where
  pub entries : List Subdevice
  pub counts : ℕ → ℕ

-- MAX_PATH, and STATUS_BUFFER_OVERFLOW, which RtlStringCchCopyW returns for a longer name.
abbrev pub max_path : ℕ
max_path = 260

abbrev pub buffer_overflow : NtStatus
buffer_overflow = failure 0x80000005

abbrev pub find_entry : List ℕ → List Subdevice → Option Subdevice
find_entry name [] = none
find_entry name (e ∷ es) = if same_name name e.name then some e else find_entry name es

-- GetCachedSubdevice, for a caller that takes both interfaces.
unfoldable pub get_found : Option Subdevice → Cache → NtStatus × Option (ℕ × ℕ) × Cache
get_found none s = (object_name_not_found, none, s)
get_found (some e) s = (
  success,
  some (e.port, e.miniport),
  record s { counts = add_ref e.miniport (add_ref e.port s.counts) },
)

unfoldable pub get_cached_subdevice : List ℕ → Cache → NtStatus × Option (ℕ × ℕ) × Cache
unfolding get_found
get_cached_subdevice name s = get_found (find_entry name s.entries) s

-- CacheSubdevice: `room` says that the memory was had, and `power` and `change` are what
-- QueryInterface of the miniport gives.
unfoldable pub cache_subdevice :
    Bool → Option ℕ → Option ℕ → List ℕ → ℕ → ℕ → Cache → NtStatus × Cache
cache_subdevice room power change name port miniport s =
    if room
    then (if ltb (length name) max_path
        then (
          success,
          record {
            entries =
                s.entries
                ++ (record {
                  name = name;
                  port = port;
                  miniport = miniport;
                  power = power;
                  change = change;
                }
                    ∷ []);
            counts =
                add_ref_of change (add_ref_of power (add_ref miniport (add_ref port s.counts)));
          },
        )
        else (buffer_overflow, s))
    else (insufficient_resources, s)

unfoldable pub release_entry : Subdevice → (ℕ → ℕ) → ℕ → ℕ
release_entry e counts =
    release_of e.change (release_of e.power (release e.miniport (release e.port counts)))

-- The loop of RemoveCachedSubdevice: the first entry of the name is taken out.
unfoldable pub remove_entry : List ℕ → List Subdevice → (ℕ → ℕ) → Option Cache
unfolding release_entry
remove_entry name [] counts = none
remove_entry name (e ∷ es) counts =
    let rest = remove_entry name es counts in
    if same_name name e.name
    then some (record { entries = es; counts = release_entry e counts })
    else elim rest [ none ↦ none | some s ↦ some (record s { entries = e ∷ s.entries }) ]

unfoldable pub remove_cached_subdevice : List ℕ → Cache → NtStatus × Cache
remove_cached_subdevice name s = elim (remove_entry name s.entries s.counts) [
  | none ↦ (object_name_not_found, s)
  | some s' ↦ (success, s')
]

-- The loop of EmptySubdeviceCache.
unfoldable pub empty_entries : List Subdevice → (ℕ → ℕ) → ℕ → ℕ
empty_entries [] counts = counts
empty_entries (e ∷ es) counts =
    empty_entries es
      (release_of e.power (release_of e.change (release e.miniport (release e.port counts))))

unfoldable pub empty_subdevice_cache : Cache → Cache
unfolding empty_entries
empty_subdevice_cache s = record { entries = []; counts = empty_entries s.entries s.counts }
