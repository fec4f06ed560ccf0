-- ===== src/Data/Dispatch.antt =====
-- cyber/data/data_dispatcher.h and data_notifier.h, with the one-channel visitors of a process. A visitor is
-- known by its number, also as the weak pointer to its buffer and as its notifier; the map of the
-- lock-free hash tables is a list of channels.
pub mod Attached
pub mod Seen
pub mod Wakes
mod Tests
use cyber_rt_standalone_r.Prelude.{
  ℕ, zero, suc, List, [], ◌∷◌, ◌++◌, Bool, true, false, Option, some, none, if◌then◌else◌, ◌==◌,
  ◌||◌, length,
}
use cyber_rt_standalone_r.Data.Visitor.{Visitor, create, arrival, try_fetch}

pub record Dispatcher (T : Type 0) : Type 0 where
  pub visitors : List (Option (Visitor T))
  pub buffers_map : List (ℕ × List ℕ)
  pub notifies_map : List (ℕ × List ℕ)
  pub registered : List ℕ

-- `AddBuffer` and `AddNotifier`.
unfoldable pub enlist : ℕ → ℕ → List (ℕ × List ℕ) → List (ℕ × List ℕ)
enlist id n [] = (id, n ∷ []) ∷ []
enlist id n ((k, ns) ∷ m) =
    let rest = enlist id n m in if k == id then (k, ns ++ n ∷ []) ∷ m else (k, ns) ∷ rest

unfoldable pub listed : ℕ → List (ℕ × List ℕ) → Option (List ℕ)
listed id [] = none
listed id ((k, ns) ∷ m) = let rest = listed id m in if k == id then some ns else rest

abbrev pub contains : ℕ → List ℕ → Bool
contains n [] = false
contains n (k ∷ ns) = k == n || contains n ns

-- `Notify`: whose callbacks are called, in order.
abbrev pub callbacks_of : List ℕ → List ℕ → List ℕ
callbacks_of registered [] = []
callbacks_of registered (n ∷ ns) =
    let rest = callbacks_of registered ns in if contains n registered then n ∷ rest else rest

abbrev pub notified : List ℕ → Option (List ℕ) → Bool × List ℕ
notified registered none = (false, [])
notified registered (some ns) = (true, callbacks_of registered ns)

module _ {T : Type 0} where
  -- The visitor of a number, unless it is gone, and a change of it.
  unfoldable pub locked : ℕ → List (Option (Visitor T)) → Option (Visitor T)
  locked n [] = none
  locked zero (o ∷ os) = o
  locked (suc n) (o ∷ os) = locked n os

  unfoldable pub changed :
      (Option (Visitor T) → Option (Visitor T))
      → ℕ
      → List (Option (Visitor T))
      → List (Option (Visitor T))
  changed f n [] = []
  changed f zero (o ∷ os) = f o ∷ os
  changed f (suc n) (o ∷ os) = o ∷ changed f n os

  -- The body of the loop of `Dispatch`.
  abbrev pub filled : T → Option (Visitor T) → Option (Visitor T)
  filled m none = none
  filled m (some v) = some (arrival v m)

  abbrev pub fill_all : T → List ℕ → List (Option (Visitor T)) → List (Option (Visitor T))
  fill_all m [] os = os
  fill_all m (n ∷ ns) os = fill_all m ns (changed (filled m) n os)

  -- `Dispatch` of a process that is not shut down, by the buffers of the channel.
  abbrev pub dispatch_to : ℕ → T → Option (List ℕ) → Dispatcher T → Bool × List ℕ × Dispatcher T
  dispatch_to id m none d = (false, [], d)
  dispatch_to id m (some ns) d =
      let (b, called) = notified d.registered (listed id d.notifies_map) in
      (b, called, record d { visitors = fill_all m ns d.visitors })

  unfoldable pub dispatch : Bool → ℕ → T → Dispatcher T → Bool × List ℕ × Dispatcher T
  dispatch true id m d = (false, [], d)
  dispatch false id m d = dispatch_to id m (listed id d.buffers_map) d

  -- The constructor of a visitor of a channel.
  abbrev pub attach : T → ℕ → ℕ → Dispatcher T → Dispatcher T
  attach default id queue_size d =
      let n = length d.visitors in
      record d {
        visitors = d.visitors ++ some (create default queue_size) ∷ [];
        buffers_map = enlist id n d.buffers_map;
        notifies_map = enlist id n d.notifies_map;
      }

  -- `RegisterNotifyCallback`.
  abbrev pub register : ℕ → Dispatcher T → Dispatcher T
  register n d = record d { registered = n ∷ d.registered }

  -- The end of a visitor; its notifier stays.
  abbrev pub destroy : ℕ → Dispatcher T → Dispatcher T
  destroy n d = record d { visitors = changed (λ o. none) n d.visitors }

  -- `TryFetch` of a visitor.
  abbrev pub fetched : T → ℕ → Option (Visitor T) → Dispatcher T → Option (ℕ × T) × Dispatcher T
  fetched default n none d = (none, d)
  fetched default n (some v) d =
      let (out, v') = try_fetch default v in
      (out, record d { visitors = changed (λ o. some v') n d.visitors })

  abbrev pub poll_of : T → ℕ → Dispatcher T → Option (ℕ × T) × Dispatcher T
  poll_of default n d = fetched default n (locked n d.visitors) d

-- What happens in a process.
pub data Happening (T : Type 0) : Type 0 where
  attached : ℕ → ℕ → Happening T
  registers : ℕ → Happening T
  destroyed : ℕ → Happening T
  dispatched : Bool → ℕ → T → Happening T
  polled : ℕ → Happening T

abbrev pub happen : {T : Type 0} → T → Happening T → Dispatcher T → Dispatcher T
happen default (attached id queue_size) d = attach default id queue_size d
happen default (registers n) d = register n d
happen default (destroyed n) d = destroy n d
happen default (dispatched down id m) d = (dispatch down id m d).2
happen default (polled n) d = (poll_of default n d).1
