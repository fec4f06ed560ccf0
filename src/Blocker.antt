-- ===== src/Blocker.antt =====
-- cyber/blocker/blocker.h: the messages of one channel inside a process, newest first. A message
-- pointer is its message, `none` the null pointer; each function holds the blocker's locks.
pub mod Published
pub mod Range
pub mod Subscriptions
pub mod Manager
pub mod Reader
pub mod Delivery
mod Tests
use cyber_rt_standalone_r.Prelude.{
  ℕ, zero, suc, List, [], ◌∷◌, Bool, true, false, Option, some, none, if◌then◌else◌, length, ltb,
  get_last?, ◌==◌,
}
use cyber_rt_standalone_r.Discovery.Keys.{Key, find, assign, erase, has, values}

-- `C` is the type of callbacks.
pub record Blocker (T C : Type 0) : Type 0 where
  pub capacity : ℕ
  pub channel_name : Key
  pub observed_msg_queue : List T
  pub published_msg_queue : List T
  pub published_callbacks : List (Key × C)

abbrev pub pop_back : {A : Type 0} → List A → List A
pop_back [] = []
pop_back (x ∷ []) = []
pop_back (x ∷ y ∷ ys) = x ∷ pop_back (y ∷ ys)

-- `while (queue.size() > capacity) queue.pop_back()`, at most `fuel` rounds.
abbrev pub shrink : {A : Type 0} → ℕ → ℕ → List A → List A
shrink zero capacity queue = queue
shrink (suc fuel) capacity queue =
    let rest = shrink fuel capacity (pop_back queue) in
    if ltb capacity (length queue) then rest else queue

abbrev pub get_front : {A : Type 0} → List A → Option A
get_front [] = none
get_front (x ∷ xs) = some x

-- The queue after `Enqueue`, by whether the capacity is 0. Each round of the loop drops a message, so
-- that as many rounds as messages are enough.
abbrev pub pushed : {A : Type 0} → Bool → ℕ → A → List A → List A
pushed true capacity msg queue = queue
pushed false capacity msg queue = shrink (suc (length queue)) capacity (msg ∷ queue)

module _ {T C : Type 0} where
  pub enqueue : T → Blocker T C → Blocker T C
  enqueue msg b = record b {
    published_msg_queue = pushed (b.capacity == 0) b.capacity msg b.published_msg_queue;
  }

  -- The calls that `Notify` makes.
  abbrev pub calls : T → List C → List (C × T)
  calls msg [] = []
  calls msg (c ∷ cs) = (c, msg) ∷ calls msg cs

  unfoldable pub notify : T → Blocker T C → List (C × T)
  notify msg b = calls msg (values b.published_callbacks)

  unfoldable pub publish : T → Blocker T C → List (C × T) × Blocker T C
  unfolding enqueue notify
  publish msg b = let b' = enqueue msg b in (notify msg b', b')

  pub reset : Blocker T C → Blocker T C
  reset b = record b { observed_msg_queue = []; published_msg_queue = []; published_callbacks = [] }

  unfoldable pub clear_observed : Blocker T C → Blocker T C
  clear_observed b = record b { observed_msg_queue = [] }

  unfoldable pub clear_published : Blocker T C → Blocker T C
  clear_published b = record b { published_msg_queue = [] }

  unfoldable pub observe : Blocker T C → Blocker T C
  observe b = record b { observed_msg_queue = b.published_msg_queue }

  pub set_capacity : ℕ → Blocker T C → Blocker T C
  set_capacity capacity b = record b {
    capacity = capacity;
    published_msg_queue = shrink (length b.published_msg_queue) capacity b.published_msg_queue;
  }

  -- By whether the id is taken.
  abbrev pub subscribed : Bool → Key → C → Blocker T C → Bool × Blocker T C
  subscribed true callback_id callback b = (false, b)
  subscribed false callback_id callback b =
      (true, record b { published_callbacks = assign callback_id callback b.published_callbacks })

  unfoldable pub subscribe : Key → C → Blocker T C → Bool × Blocker T C
  subscribe callback_id callback b =
      subscribed (has callback_id b.published_callbacks) callback_id callback b

  pub unsubscribe : Key → Blocker T C → Bool × Blocker T C
  unsubscribe callback_id b = (
    has callback_id b.published_callbacks,
    record b { published_callbacks = erase callback_id b.published_callbacks },
  )

  unfoldable pub get_latest_observed_ptr : Blocker T C → Option T
  get_latest_observed_ptr b = get_front b.observed_msg_queue

  unfoldable pub get_oldest_observed_ptr : Blocker T C → Option T
  get_oldest_observed_ptr b = get_last? b.observed_msg_queue

  pub get_latest_published_ptr : Blocker T C → Option T
  get_latest_published_ptr b = get_front b.published_msg_queue

  -- The iterators, as positions in the observed queue.
  abbrev pub observed_begin : Blocker T C → ℕ
  observed_begin b = 0

  abbrev pub observed_end : Blocker T C → ℕ
  observed_end b = length b.observed_msg_queue
