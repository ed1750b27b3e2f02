-- ===== src/Endpoints/Requests.antt =====
-- What SetIdlePowerManagement does to the count of requests, to the port, and to references.
use inferno_windows.Prelude.{
  ℕ, zero, suc, ◌+◌, ◌-◌, ◌<◌, ◌%◌, ◌^◌, ◌≡◌, refl, ap, sym, ◌∙◌, subst, arith, Bool, true, false,
  Option, none, some, List, [], ◌∷◌, ◌++◌, length, ◌==◌, if_true, if_false, if_both, append_assoc,
}
use inferno_windows.Status.{NtStatus, success, nt_success}
use inferno_windows.Objects.{one, add_ref, release}
use inferno_windows.Subdevices.{Subdevice, Cache, find_entry, get_found, get_cached_subdevice}
use inferno_windows.Alternation.{pairs, told}
use inferno_windows.Endpoints.{Services, Minipair, Endpoints, with_counts}
use inferno_windows.Endpoints.Idle.{
  get_port, get_half, get_filters, idle_request, request_through, set_idle_power_management,
}

-- A wave filter that is cached is asked.
request_found :
    (k : Services) (p : Minipair) (enabled : Bool) (e : Subdevice) (s : Endpoints)
    → find_entry p.wave_name s.cache.entries ≡ some e
    → set_idle_power_management k p enabled s
      ≡ request_through k enabled
          (success, some e.port, with_counts (add_ref e.miniport (add_ref e.port s.cache.counts)) s)
unfolding set_idle_power_management get_filters get_half get_port get_cached_subdevice get_found
request_found k p enabled e s found =
    ap
      (λ (o : Option Subdevice).
        let r = get_port true false (get_found o s.cache) s in
        request_through k enabled (r.0, r.1, r.3))
      found

idle_request_same : (enabled : Bool) (s : Endpoints) → (idle_request enabled s).cache ≡ s.cache
unfolding idle_request
idle_request_same true s = refl
idle_request_same false s = refl

-- Whether or not its port takes part in power management, each call of SetIdlePowerManagement for a
-- cached wave filter leaves one more reference to its miniport, and as many as before to all else.
pub set_idle_power_management_leaks :
    (k : Services) (p : Minipair) (enabled : Bool) (e : Subdevice) (s : Endpoints)
    → find_entry p.wave_name s.cache.entries ≡ some e
    → (y : ℕ)
    → (set_idle_power_management k p enabled s).1.cache.counts y
      ≡ s.cache.counts y + one e.miniport y
unfolding request_through
set_idle_power_management_leaks k p enabled e s found y =
    subst Leaks (sym (request_found k p enabled e s found)) (
      if_both Leaks (nt_success (k.query_power e.port))
        (ap (λ (c : Cache). c.counts y) (idle_request_same enabled done) ∙ omega arith)
        (omega arith))
  where
    done : Endpoints
    done = with_counts (release e.port (add_ref e.miniport (add_ref e.port s.cache.counts))) s

    Leaks : NtStatus × Endpoints → Type 0
    Leaks r = r.1.cache.counts y ≡ s.cache.counts y + one e.miniport y

-- Requests for one endpoint, one after another: `true` enables, `false` disables.
unfoldable pub requests : Services → Minipair → List Bool → Endpoints → Endpoints
requests k p [] s = s
requests k p (b ∷ bs) s = requests k p bs (set_idle_power_management k p b s).1

-- How many requests to disable are left, from `n` of them, if there is one for each to enable.
abbrev pub outstanding : List Bool → ℕ → Option ℕ
outstanding [] n = some n
outstanding (false ∷ bs) n = outstanding bs (suc n)
outstanding (true ∷ bs) zero = none
outstanding (true ∷ bs) (suc n) = outstanding bs n

-- The port was told to disable and to enable in turn, last to disable where requests are left.
abbrev pub IsIdle : ℕ → Endpoints → Type 0
IsIdle n s = (s.idle_requests ≡ n) × ((j : ℕ) × (s.idle_calls ≡ told false j n))

disable-IsIdle :
    (n : ℕ) (s : Endpoints) → n + 1 < 2 ^ 32 → IsIdle n s → IsIdle (suc n) (idle_request false s)
unfolding idle_request
disable-IsIdle zero s bound (count, (j, calls)) = (
  omega (arith, count),
  (
    j,
    if_true (s.idle_requests == 0) _ _ (ground (arith, count))
        ∙ ap (λ (cs : List Bool). cs ++ (false ∷ [])) calls,
  ),
)
disable-IsIdle (suc n) s bound (count, (j, calls)) = (
  omega (arith, count, bound),
  (j, if_false (s.idle_requests == 0) _ _ (ground (arith, count)) ∙ calls),
)

enable-IsIdle :
    (n : ℕ) (s : Endpoints) → n + 1 < 2 ^ 32 → IsIdle (suc n) s → IsIdle n (idle_request true s)
unfolding idle_request
enable-IsIdle zero s bound (count, (j, calls)) = (
  omega (arith, count),
  (
    suc j,
    if_true ((s.idle_requests + 2 ^ 32 - 1) % 2 ^ 32 == 0) _ _ (ground (arith, count))
        ∙ ap (λ (cs : List Bool). cs ++ (true ∷ [])) calls
        ∙ append_assoc (pairs false j) (false ∷ []) (true ∷ []),
  ),
)
enable-IsIdle (suc n) s bound (count, (j, calls)) = (
  omega (arith, count, bound),
  (
    j,
    if_false ((s.idle_requests + 2 ^ 32 - 1) % 2 ^ 32 == 0) _ _ (ground (arith, count, bound))
        ∙ calls,
  ),
)

-- A request that gets through is counted, and the entries of the cache stay.
abbrev GetsThrough : Services → Minipair → Subdevice → Endpoints → Type 0
GetsThrough k p e s =
    (find_entry p.wave_name s.cache.entries ≡ some e) × (nt_success (k.query_power e.port) ≡ true)

through :
    (k : Services) (p : Minipair) (enabled : Bool) (e : Subdevice) (s : Endpoints)
    → GetsThrough k p e s
    → (set_idle_power_management k p enabled s).1
      ≡ idle_request enabled
          (with_counts (release e.port (add_ref e.miniport (add_ref e.port s.cache.counts))) s)
unfolding request_through
through k p enabled e s (found, good) =
    ap (λ (r : NtStatus × Endpoints). r.1) (request_found k p enabled e s found)
    ∙ ap (λ (r : NtStatus × Endpoints). r.1) (if_true (nt_success (k.query_power e.port)) _ _ good)

-- Fewer than 2 ^ 32 requests in all for a wave filter that is cached and whose port takes part in
-- power management, with none to enable that has none to disable before it: the count is that of
-- the requests to disable that are left, and the port was told to disable and to enable in turn,
-- last to disable if and only if some are left.
pub requests-IsIdle :
    (bs : List Bool) (k : Services) (p : Minipair) (e : Subdevice) (s : Endpoints) (n left : ℕ)
    → find_entry p.wave_name s.cache.entries ≡ some e
    → nt_success (k.query_power e.port) ≡ true
    → n + length bs < 2 ^ 32
    → outstanding bs n ≡ some left
    → IsIdle n s
    → IsIdle left (requests k p bs s)
unfolding requests
requests-IsIdle [] k p e s n left found good bound h idle =
    subst (λ (x : ℕ). IsIdle x s) (ground (arith, h)) idle
requests-IsIdle (false ∷ bs) k p e s n left found good bound h idle =
    let done =
      with_counts (release e.port (add_ref e.miniport (add_ref e.port s.cache.counts))) s in
    subst (λ (x : Endpoints). IsIdle left (requests k p bs x))
      (sym (through k p false e s (found, good)))
      (requests-IsIdle bs k p e (idle_request false done) (suc n) left
        (ap (λ (c : Cache). find_entry p.wave_name c.entries) (idle_request_same false done)
          ∙ found)
        good (omega arith) h (disable-IsIdle n done (omega arith) idle))
requests-IsIdle (true ∷ bs) k p e s zero left found good bound h idle = absurd (ground (arith, h))
requests-IsIdle (true ∷ bs) k p e s (suc n) left found good bound h idle =
    let done =
      with_counts (release e.port (add_ref e.miniport (add_ref e.port s.cache.counts))) s in
    subst (λ (x : Endpoints). IsIdle left (requests k p bs x))
      (sym (through k p true e s (found, good)))
      (requests-IsIdle bs k p e (idle_request true done) n left
        (ap (λ (c : Cache). find_entry p.wave_name c.entries) (idle_request_same true done) ∙ found)
        good (omega arith) h (enable-IsIdle n done (omega arith) idle))
