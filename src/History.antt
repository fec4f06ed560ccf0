-- ===== src/History.antt =====
-- cyber/transport/message/history.h: the newest messages of a writer, kept for readers that come late.
-- A message stands beside its information as one value; each function holds the history's lock.
pub mod Kept
mod Tests
use cyber_rt_standalone_r.Prelude.{
  ℕ, zero, suc, List, [], ◌∷◌, ◌++◌, Bool, true, false, Option, some, none, if◌then◌else◌, length,
  ltb,
}

pub data HistoryPolicy : Type 0 where
  system_default keep_last keep_all : HistoryPolicy

pub record HistoryAttributes : Type 0 where
  pub history_policy : HistoryPolicy
  pub depth : ℕ

pub record History (T : Type 0) : Type 0 where
  pub enabled : Bool
  pub depth : ℕ
  pub max_depth : ℕ
  pub msgs : List T

-- `max_history_depth` of the global configuration, where it is set.
abbrev pub limit : Option ℕ → ℕ
limit none = 1000
limit (some n) = n

abbrev pub depth_under : HistoryPolicy → ℕ → ℕ → ℕ
depth_under keep_all depth max_depth = max_depth
depth_under keep_last depth max_depth = if ltb max_depth depth then max_depth else depth
depth_under system_default depth max_depth = if ltb max_depth depth then max_depth else depth

unfoldable pub create : {T : Type 0} → Option ℕ → HistoryAttributes → History T
create conf attr = record {
  enabled = false;
  depth = depth_under attr.history_policy attr.depth (limit conf);
  max_depth = limit conf;
  msgs = [];
}

abbrev pub pop_front : {A : Type 0} → List A → List A
pop_front [] = []
pop_front (x ∷ xs) = xs

-- `while (msgs_.size() > depth_) msgs_.pop_front()`, at most `fuel` rounds.
abbrev pub trim : {A : Type 0} → ℕ → ℕ → List A → List A
trim zero depth msgs = msgs
trim (suc fuel) depth msgs =
    let rest = trim fuel depth (pop_front msgs) in if ltb depth (length msgs) then rest else msgs

module _ {T : Type 0} where
  unfoldable pub enable : History T → History T
  enable h = record h { enabled = true }

  unfoldable pub disable : History T → History T
  disable h = record h { enabled = false }

  -- Each round of the loop drops a message, so that as many rounds as messages are enough.
  abbrev pub kept : Bool → ℕ → T → List T → List T
  kept false depth m msgs = msgs
  kept true depth m msgs = trim (suc (length msgs)) depth (msgs ++ m ∷ [])

  unfoldable pub add : T → History T → History T
  add m h = record h { msgs = kept h.enabled h.depth m h.msgs }

  unfoldable pub clear : History T → History T
  clear h = record h { msgs = [] }

  -- `GetCachedMessage` puts the messages in front of what the vector holds.
  unfoldable pub get_cached_message : List T → History T → List T
  get_cached_message out h = h.msgs ++ out
