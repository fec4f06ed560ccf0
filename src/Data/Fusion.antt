-- ===== src/Data/Fusion.antt =====
-- cyber/data/fusion/all_latest.h: `AllLatest<M0, M1, M2, M3>`, which joins each message of the first
-- channel with the newest messages of the other three. The buffers are shared pointers there; here
-- the first buffer's callback works on the state `Joined` of the buffers that it captures.
pub mod Joins
use cyber_rt_standalone_r.Prelude.{ℕ, List, [], ◌∷◌, Option, some, none, sub_u64}
use cyber_rt_standalone_r.Data.Buffer.{CacheBuffer, init, fill, set_fusion_callback}
use cyber_rt_standalone_r.Data.Channel.{fetch, latest}

abbrev pub Plain : Type 0 → Type 0
Plain T = CacheBuffer (Unit {0}) T

-- `Fill` on a buffer with no callback to run.
abbrev pub put : {T : Type 0} → Plain T → T → Plain T
put b v = (fill b v tt).0

module _ (M0 M1 M2 M3 : Type 0) where
  abbrev pub FusionData : Type 0
  FusionData = M0 × M1 × M2 × M3

  pub record Joined : Type 0 where
    pub m1 : Plain M1
    pub m2 : Plain M2
    pub m3 : Plain M3
    pub fusion : Plain FusionData

  pub record AllLatest : Type 0 where
    pub m0 : CacheBuffer Joined M0
    pub joined : Joined

  pub data Arrival : Type 0 where
    on0 : M0 → Arrival
    on1 : M1 → Arrival
    on2 : M2 → Arrival
    on3 : M3 → Arrival

module _ {M0 M1 M2 M3 : Type 0} (d0 : M0) (d1 : M1) (d2 : M2) (d3 : M3) where
  -- The rest of the callback, with what the three calls of `Latest` gave.
  abbrev pub fuse_latest :
      Plain (FusionData M0 M1 M2 M3)
      → M0
      → Option M1
      → Option M2
      → Option M3
      → Plain (FusionData M0 M1 M2 M3)
  fuse_latest b v0 (some v1) (some v2) (some v3) = put b (v0, v1, v2, v3)
  fuse_latest b v0 (some v1) (some v2) none = b
  fuse_latest b v0 (some v1) none o3 = b
  fuse_latest b v0 none o2 o3 = b

  -- The callback: nothing happens, unless each of the others has a newest message.
  pub fuse : M0 → Joined M0 M1 M2 M3 → Joined M0 M1 M2 M3
  fuse v0 j = record j {
    fusion = fuse_latest j.fusion v0 (latest d1 j.m1) (latest d2 j.m2) (latest d3 j.m3);
  }

  -- The constructor, over four new buffers.
  pub create : ℕ → ℕ → ℕ → ℕ → AllLatest M0 M1 M2 M3
  create n0 n1 n2 n3 =
      let b0 : CacheBuffer (Joined M0 M1 M2 M3) M0 = init d0 n0 in
      record {
        m0 = set_fusion_callback b0 fuse;
        joined = record {
          m1 = init d1 n1;
          m2 = init d2 n2;
          m3 = init d3 n3;
          fusion = init (d0, d1, d2, d3) (sub_u64 b0.capacity 1);
        };
      }

  -- What the dispatcher does with a message of one of the channels.
  pub step : AllLatest M0 M1 M2 M3 → Arrival M0 M1 M2 M3 → AllLatest M0 M1 M2 M3
  step a (on0 v) = let (b, j) = fill a.m0 v a.joined in record { m0 = b; joined = j }
  step a (on1 v) = record a { joined = record a.joined { m1 = put a.joined.m1 v } }
  step a (on2 v) = record a { joined = record a.joined { m2 = put a.joined.m2 v } }
  step a (on3 v) = record a { joined = record a.joined { m3 = put a.joined.m3 v } }

  pub steps : AllLatest M0 M1 M2 M3 → List (Arrival M0 M1 M2 M3) → AllLatest M0 M1 M2 M3
  steps a [] = a
  steps a (e ∷ es) = steps (step a e) es

  -- `Fusion`: the joined messages at `*index`, and the new `*index`.
  pub fusion : AllLatest M0 M1 M2 M3 → ℕ → Option (FusionData M0 M1 M2 M3) × ℕ
  fusion a index = fetch (d0, d1, d2, d3) a.joined.fusion index
