-- ===== src/Start.antt =====
-- src/start.c: the walk over the initial stack, and the root fiber.
pub mod Walk
pub mod Process
pub mod Root
pub mod Boot
mod Tests
use libuc.Prelude.{
  ℕ, zero, suc, ◌+◌, ◌-◌, ◌*◌, ◌^◌, ◌==◌, ℤ, pos, Bool, true, false, not, ltb, Option, none, some,
  if◌then◌else◌,
}
use libuc.Ring.{Kernel}
use libuc.Ring.Create.{Setup}
use libuc.Auxv.{auxv_get}
use libuc.ThreadLocal.{Header, thread_local_layout}
use libuc.Machine.{Ptr, null, State, Outcome, ok, trap, fault, out_of_fuel, and_then, Cmd}
use libuc.Fiber.{Event, spawn}
use libuc.Scheduler.{become, enqueue}
use libuc.Scheduler.Reactor.{run}

-- `while (*environment_end != nullptr)`, from a word on; fuel bounds the words it reads.
unfoldable pub environment_end : (words : ℕ → ℕ) → (fuel word : ℕ) → Option ℕ
environment_end words zero word = none
environment_end words (suc fuel) word =
    let rest = environment_end words fuel (word + 1) in if words word == 0 then some word else rest

-- The word at which the auxiliary vector begins; `some none` is the exit with 127.
unfoldable pub find_auxv : (words : ℕ → ℕ) → (fuel : ℕ) → Option (Option ℕ)
find_auxv words fuel =
    let argument_count = words 0 in
    if ltb (2 ^ 31 - 1) argument_count
    then some none
    else if not (words (1 + argument_count) == 0)
    then some none
    else elim (environment_end words fuel (1 + argument_count + 1)) [
      | none ↦ none
      | some end ↦ some (some (end + 1))
    ]

abbrev pub root_stack_length : ℕ
root_stack_length = 8 * 2 ^ 20

-- Behind the root's creation; false is the exit with 127.
unfoldable pub enter_root : Ptr → Cmd Bool
enter_root root s = if root == null then ok false s else and_then (enqueue root s) λ _ t. ok true t

-- `__libuc_start` from the layout, which the auxiliary vector gave, up to the reactor.
unfoldable pub prepare : Setup → Event → (root_entry arguments : ℕ) → Cmd Bool
unfolding enter_root
prepare setup event root_entry arguments s = elim s.layout [
  | none ↦ ok false s
  | some layout ↦ elim (become setup s).0 [
    | false ↦ ok false (become setup s).1
    | true ↦
        and_then (spawn event root_stack_length root_entry arguments (become setup s).1) enter_root
  ]
]

-- And the reactor.
unfoldable pub boot :
    Setup → Event → Kernel → (ℕ → Event) → (fuel rounds root_entry arguments : ℕ) → Cmd ℤ
unfolding prepare
boot setup event enter events fuel rounds root_entry arguments s =
    and_then (prepare setup event root_entry arguments s)
      λ ready t. if ready then run enter events fuel rounds t else ok (pos 127) t

-- `Option` of a search that ran out of fuel, or found nothing.
abbrev pub found : Option (Option ℕ) → Option ℕ
found none = none
found (some value) = value

-- `__libuc_start`, with fuel for the walk and for the searches of the auxiliary vector; `headers` is the
-- program's memory as far as the layout reads it.
unfoldable pub libuc_start :
    (words : ℕ → ℕ)
    → (headers : (address : ℕ) → ℕ → Header) → Setup
    → Event
    → Kernel
    → (ℕ → Event)
    → (walk_fuel search_fuel fuel rounds root_entry arguments : ℕ) → Cmd ℤ
libuc_start words headers setup event enter events walk_fuel search_fuel fuel rounds root_entry
      arguments s =
    elim (find_auxv words walk_fuel) [
      | none ↦ out_of_fuel
      | some none ↦ ok (pos 127) s
      | some (some start) ↦
          let (layout, kept) =
            thread_local_layout s.layout (λ type. found (auxv_get words type search_fuel start))
              headers in
          boot setup event enter events fuel rounds root_entry arguments
            (record s { layout = kept })
    ]
