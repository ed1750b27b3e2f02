-- ===== src/Power/Relations.antt =====
-- inferno_driver/common.cpp, the list of devices that the adapter's power depends on:
-- AddDeviceAsPowerDependency, RemoveDeviceAsPowerDependency and UpdatePowerRelations, with their
-- references.
use inferno_windows.Prelude.{
  ℕ, ◌+◌, ◌≡◌, refl, ap, ◌∙◌, arith, Bool, Bool-cases, inl, inr, Option, none, some, List, [], ◌∷◌,
  ◌++◌, ◌==◌, if◌then◌else◌, if_both, if_true, if_false,
}
use inferno_windows.Status.{NtStatus, success, insufficient_resources}
use inferno_windows.Objects.{one, add_ref, release}

-- m_PowerRelations, the references of device objects, and the relations that the request carries:
-- the PnP manager gives back one reference for each of them.
pub record Relations : Type 0 where
  pub devices : List ℕ
  pub counts : ℕ → ℕ
  pub information : Option (List ℕ)

-- AddDeviceAsPowerDependency: `room` says that the memory was had.
unfoldable pub add_device_as_power_dependency : Bool → ℕ → Relations → NtStatus × Relations
add_device_as_power_dependency room pdo s =
    if room
    then (success, record s { devices = s.devices ++ (pdo ∷ []); counts = add_ref pdo s.counts })
    else (insufficient_resources, s)

-- The loop of RemoveDeviceAsPowerDependency: every entry of the device goes.
unfoldable pub remove_all : ℕ → List ℕ → (ℕ → ℕ) → List ℕ × (ℕ → ℕ)
remove_all pdo [] counts = ([], counts)
remove_all pdo (x ∷ xs) counts =
    let hit = remove_all pdo xs (release x counts) in
    let miss = remove_all pdo xs counts in if x == pdo then hit else (x ∷ miss.0, miss.1)

unfoldable pub remove_device_as_power_dependency : ℕ → Relations → NtStatus × Relations
remove_device_as_power_dependency pdo s =
    let r = remove_all pdo s.devices s.counts in (success, record s { devices = r.0; counts = r.1 })

unfoldable pub reference_all : List ℕ → (ℕ → ℕ) → ℕ → ℕ
reference_all [] counts = counts
reference_all (x ∷ xs) counts = reference_all xs (add_ref x counts)

unfoldable pub dereference_all : List ℕ → (ℕ → ℕ) → ℕ → ℕ
dereference_all [] counts = counts
dereference_all (x ∷ xs) counts = dereference_all xs (release x counts)

abbrev pub objects_of : Option (List ℕ) → List ℕ
objects_of none = []
objects_of (some xs) = xs

-- With a device in the list. A failure gives back what others reported, as the PnP manager would.
unfoldable pub extend_relations : Bool → Relations → NtStatus × Relations
extend_relations room s =
    if room
    then (
      success,
      record s {
        counts = reference_all s.devices s.counts;
        information = some (objects_of s.information ++ s.devices);
      },
    )
    else (
      insufficient_resources,
      record s { counts = dereference_all (objects_of s.information) s.counts; information = none },
    )

abbrev pub update_listed : Bool → List ℕ → Relations → NtStatus × Relations
update_listed room [] s = (success, s)
update_listed room (x ∷ xs) s = extend_relations room s

-- UpdatePowerRelations: with no device in the list the request stays as it is.
unfoldable pub update_power_relations : Bool → Relations → NtStatus × Relations
update_power_relations room s = update_listed room s.devices s

-- How often a device is in a list.
abbrev pub listed : ℕ → List ℕ → ℕ
listed y [] = 0
listed y (x ∷ xs) = one x y + listed y xs

listed-append : (y : ℕ) (xs ys : List ℕ) → listed y (xs ++ ys) ≡ listed y xs + listed y ys
listed-append y [] ys = omega arith
listed-append y (x ∷ xs) ys = omega (arith, listed-append y xs ys)

reference_all-listed :
    (y : ℕ) (xs : List ℕ) (counts : ℕ → ℕ) → reference_all xs counts y ≡ counts y + listed y xs
unfolding reference_all
reference_all-listed y [] counts = omega arith
reference_all-listed y (x ∷ xs) counts = omega (arith, reference_all-listed y xs (add_ref x counts))

dereference_all-listed :
    (y others : ℕ) (xs : List ℕ) (counts : ℕ → ℕ)
    → counts y ≡ others + listed y xs
    → dereference_all xs counts y ≡ others
unfolding dereference_all
dereference_all-listed y others [] counts h = omega (arith, h)
dereference_all-listed y others (x ∷ xs) counts h =
    dereference_all-listed y others xs (release x counts) (omega (arith, h))

-- A device object has the references of others, one for each of its entries in the list, and one for
-- each time that the request names it.
abbrev pub IsBalanced : (ℕ → ℕ) → Relations → Type 0
IsBalanced others s =
    (y : ℕ) → s.counts y ≡ others y + listed y s.devices + listed y (objects_of s.information)

remove_all-listed :
    (y pdo others : ℕ) (xs : List ℕ) (counts : ℕ → ℕ)
    → counts y ≡ others + listed y xs
    → (remove_all pdo xs counts).1 y ≡ others + listed y (remove_all pdo xs counts).0
unfolding remove_all
remove_all-listed y pdo others [] counts h = h
remove_all-listed y pdo others (x ∷ xs) counts h =
    if_both (λ (r : List ℕ × (ℕ → ℕ)). r.1 y ≡ others + listed y r.0) (x == pdo)
      (remove_all-listed y pdo others xs (release x counts) (omega (arith, h)))
      (omega (arith, remove_all-listed y pdo (others + one x y) xs counts (omega (arith, h))))

-- A removal leaves no entry of the device.
pub remove_all-gone :
    (pdo : ℕ) (xs : List ℕ) (counts : ℕ → ℕ) → listed pdo (remove_all pdo xs counts).0 ≡ 0
unfolding remove_all
remove_all-gone pdo [] counts = refl
remove_all-gone pdo (x ∷ xs) counts = elim (Bool-cases (x == pdo)) [
  | inl hit ↦
      ap (λ (r : List ℕ × (ℕ → ℕ)). listed pdo r.0) (if_true (x == pdo) _ _ hit)
      ∙ remove_all-gone pdo xs (release x counts)
  | inr miss ↦
      ap (λ (r : List ℕ × (ℕ → ℕ)). listed pdo r.0) (if_false (x == pdo) _ _ miss)
      ∙ ground (arith, miss, remove_all-gone pdo xs counts)
]

-- The calls, with the request that a new query of the PnP manager brings.
pub data Call : Type 0 where
  add : Bool → ℕ → Call
  remove : ℕ → Call
  update : Bool → Call

unfoldable pub step : Call → Relations → Relations
step (add room pdo) s = (add_device_as_power_dependency room pdo s).1
step (remove pdo) s = (remove_device_as_power_dependency pdo s).1
step (update room) s = (update_power_relations room s).1

unfoldable pub run_relations : List Call → Relations → Relations
run_relations [] s = s
run_relations (c ∷ cs) s = run_relations cs (step c s)

update-IsBalanced :
    (others : ℕ → ℕ) (room : Bool) (xs : List ℕ) (s : Relations)
    → IsBalanced others s
    → IsBalanced others (update_listed room xs s).1
unfolding extend_relations
update-IsBalanced others room [] s h = h
update-IsBalanced others room (x ∷ xs) s h =
    if_both (λ (r : NtStatus × Relations). IsBalanced others r.1) room
      (λ y. omega (
        arith,
        h y,
        reference_all-listed y s.devices s.counts,
        listed-append y (objects_of s.information) s.devices,
      ))
      (λ y. omega (
        arith,
        h y,
        dereference_all-listed y (others y + listed y s.devices) (objects_of s.information) s.counts
            (omega (arith, h y)),
      ))

step-IsBalanced :
    (others : ℕ → ℕ) (c : Call) (s : Relations) → IsBalanced others s → IsBalanced others (step c s)
unfolding step add_device_as_power_dependency remove_device_as_power_dependency
    update_power_relations
step-IsBalanced others (add room pdo) s h =
    if_both (λ (r : NtStatus × Relations). IsBalanced others r.1) room
      (λ y. omega (arith, h y, listed-append y s.devices (pdo ∷ []))) h
step-IsBalanced others (remove pdo) s h = λ y. omega (
  arith,
  remove_all-listed y pdo (others y + listed y (objects_of s.information)) s.devices s.counts
      (omega (arith, h y)),
)
step-IsBalanced others (update room) s h = update-IsBalanced others room s.devices s h

-- Through any calls of AddDeviceAsPowerDependency, RemoveDeviceAsPowerDependency and
-- UpdatePowerRelations, failed ones included, each device object has the references of others, one
-- for each of its entries in the list, and one for each time that the request names it.
pub run_relations-IsBalanced :
    (cs : List Call) (others : ℕ → ℕ) (s : Relations)
    → IsBalanced others s
    → IsBalanced others (run_relations cs s)
unfolding run_relations
run_relations-IsBalanced [] others s h = h
run_relations-IsBalanced (c ∷ cs) others s h =
    run_relations-IsBalanced cs others (step c s) (step-IsBalanced others c s h)
