-- ===== src/Kernel/Start.antt =====
-- Ipc.cpp: what InitIPC leaves: every service of SERVICE_MAPPING under its name.
use nsemu.Common.{
  ℕ, ◌≤◌, ◌<◌, ◌≡◌, refl, ◌∙◌, Bool, true, false, not, ◌&&◌, ◌||◌, some, List, [], ◌∷◌, arith,
}
use nsemu.Machine.{interface, Kernel}
use nsemu.Kernel.{codes, name_eq, set_service, new_object, make_services, init_ipc}
use nsemu.Kernel.Mapping.{service_mapping}
use Prim.Native.String.{String}

abbrev Services : Type 0
Services = List (String × String)

-- Some entry has the name.
named : List ℕ → Services → Bool
named name [] = false
named name ((other, class) ∷ rest) = name_eq name (codes other) || named name rest

distinct : Services → Bool
distinct [] = true
distinct ((name, class) ∷ rest) = not (named (codes name) rest) && distinct rest

mapping_distinct : distinct service_mapping ≡ true
unfolding distinct named
mapping_distinct = refl

pub name_eq_self : (name : List ℕ) → name_eq name name ≡ true
name_eq_self [] = refl
name_eq_self (a ∷ name) = ground (arith, name_eq_self name)

-- Each name leads to an object of its class.
abbrev pub AllServe : Kernel → Services → Type 0
AllServe k [] = Unit {0}
AllServe k ((name, class) ∷ rest) =
    ((p : ℕ) × (p < k.next_object)
      × (k.services (codes name) ≡ some p)
      × (k.objects p ≡ some (interface class)))
    × AllServe k rest

-- New objects and other changes that leave the services and the old objects alone.
pub AllServe-grows :
    (l : Services) (k k' : Kernel)
    → AllServe k l
    → k.next_object ≤ k'.next_object
    → k'.services ≡ k.services
    → ((p : ℕ) → p < k.next_object → k'.objects p ≡ k.objects p)
    → AllServe k' l
AllServe-grows [] k k' s more same old = tt
AllServe-grows ((name, class) ∷ rest) k k' ((p, below, found, is), s) more same old =
    ((p, omega arith, rw same found, old p below ∙ is), AllServe-grows rest k k' s more same old)

other_services :
    (l : Services) (k : Kernel) (name : List ℕ)
    → named name l ≡ false
    → (make_services l k).services name ≡ k.services name
unfolding make_services named new_object
other_services [] k name h = refl
other_services ((other, class) ∷ rest) k name h =
    let k₁ = (new_object (interface class) k).1 in
    other_services rest (set_service (codes other) (some k.next_object) k₁) name (ground arith)
    ∙ ground arith

pub old_objects :
    (l : Services) (k : Kernel) (p : ℕ)
    → p < k.next_object
    → (make_services l k).objects p ≡ k.objects p
unfolding make_services new_object
old_objects [] k p h = refl
old_objects ((name, class) ∷ rest) k p h =
    let k₁ = (new_object (interface class) k).1 in
    old_objects rest (set_service (codes name) (some k.next_object) k₁) p (omega arith)
    ∙ ground arith

pub next_grows : (l : Services) (k : Kernel) → k.next_object ≤ (make_services l k).next_object
unfolding make_services new_object
next_grows [] k = omega arith
next_grows ((name, class) ∷ rest) k =
    let k₁ = (new_object (interface class) k).1 in
    omega (arith, next_grows rest (set_service (codes name) (some k.next_object) k₁))

make_services-AllServe :
    (l : Services) (k : Kernel) → distinct l ≡ true → AllServe (make_services l k) l
unfolding make_services distinct new_object
make_services-AllServe [] k h = tt
make_services-AllServe ((name, class) ∷ rest) k h =
    let k₁ = (new_object (interface class) k).1 in
    let k₂ = set_service (codes name) (some k.next_object) k₁ in
    (
      (
        k.next_object,
        omega (arith, next_grows rest k₂),
        other_services rest k₂ (codes name) (ground arith)
            ∙ ground (arith, name_eq_self (codes name)),
        old_objects rest k₂ k.next_object (omega arith) ∙ ground arith,
      ),
      make_services-AllServe rest k₂ (ground arith),
    )

-- After InitIPC each of the 191 services of SERVICE_MAPPING is found under its name, as an object of
-- its class, whatever was there before.
pub init_ipc-AllServe : (k : Kernel) → AllServe (init_ipc k) service_mapping
unfolding init_ipc
init_ipc-AllServe k = make_services-AllServe service_mapping k mapping_distinct
