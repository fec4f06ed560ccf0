-- ===== src/Data/Fusion/Joins.antt =====
-- What is joined: a specification over the messages that came, and the fusion buffer against it.
use mathlib.Core.List.{append-nil}
use cyber_rt_standalone_r.Prelude.{
  ℕ, suc, ◌+◌, ◌^◌, ◌≤◌, ◌<◌, ◌≡◌, sym, subst, sub_u64, ◌∙◌, List, [], ◌∷◌, ◌++◌, Option, some,
  none, arith, length, length-append, get_last?,
}
use cyber_rt_standalone_r.Data.Buffer.{init}
use cyber_rt_standalone_r.Data.Buffer.History.{
  Holds, capacity-init, fusion_callback-init, set_fusion_callback_lem, init-Holds, store-Holds,
  fill_plain, fill_fused, fusion_callback-store,
}
use cyber_rt_standalone_r.Data.Channel.Reads.{latest_lem, owed, fetch_lem, delivery}
use cyber_rt_standalone_r.Data.Fusion.{
  Plain, put, FusionData, Joined, AllLatest, Arrival, on0, on1, on2, on3, fuse, fuse_latest, create,
  step, steps, fusion,
}

-- A buffer without a callback that holds `hist`.
pub record Carries {T : Type 0} (d : T) (n : ℕ) (b : Plain T) (hist : List T) : Type 0 where
  pub holds : Holds d n b hist
  pub plain : b.fusion_callback ≡ none

put-Carries :
    {T : Type 0} (d : T) (n : ℕ) (b : Plain T) (hist : List T) (v : T)
    → Carries d n b hist
    → length hist + 3 < 2 ^ 64
    → Carries d n (put b v) (hist ++ v ∷ [])
put-Carries d n b hist v c room =
    rw (fill_plain b v tt c.plain, put)
      (record {
        holds = store-Holds d n b hist v c.holds room;
        plain = fusion_callback-store b v ∙ c.plain;
      })

module _ (M0 M1 M2 M3 : Type 0) where
  -- The messages of the other channels, and what has been joined.
  pub record Seen : Type 0 where
    pub seen1 : List M1
    pub seen2 : List M2
    pub seen3 : List M3
    pub out : List (FusionData M0 M1 M2 M3)

module _ {M0 M1 M2 M3 : Type 0} where
  -- A message of the first channel joined with the last of each other, if there is one of each.
  abbrev pub join : M0 → Option M1 → Option M2 → Option M3 → List (FusionData M0 M1 M2 M3)
  join v0 (some v1) (some v2) (some v3) = (v0, v1, v2, v3) ∷ []
  join v0 (some v1) (some v2) none = []
  join v0 (some v1) none o3 = []
  join v0 none o2 o3 = []

  unfoldable pub observe : Seen M0 M1 M2 M3 → Arrival M0 M1 M2 M3 → Seen M0 M1 M2 M3
  observe s (on0 v) = record s {
    out = s.out ++ join v (get_last? s.seen1) (get_last? s.seen2) (get_last? s.seen3);
  }
  observe s (on1 v) = record s { seen1 = s.seen1 ++ v ∷ [] }
  observe s (on2 v) = record s { seen2 = s.seen2 ++ v ∷ [] }
  observe s (on3 v) = record s { seen3 = s.seen3 ++ v ∷ [] }

  unfoldable pub observe_all : Seen M0 M1 M2 M3 → List (Arrival M0 M1 M2 M3) → Seen M0 M1 M2 M3
  observe_all s [] = s
  observe_all s (e ∷ es) = observe_all (observe s e) es

module _ {M0 M1 M2 M3 : Type 0} (d0 : M0) (d1 : M1) (d2 : M2) (d3 : M3) (n0 n1 n2 n3 : ℕ) where
  pub record Follows (a : AllLatest M0 M1 M2 M3) (s : Seen M0 M1 M2 M3) : Type 0 where
    pub first : a.m0.fusion_callback ≡ some (fuse d0 d1 d2 d3)
    pub carries1 : Carries d1 n1 a.joined.m1 s.seen1
    pub carries2 : Carries d2 n2 a.joined.m2 s.seen2
    pub carries3 : Carries d3 n3 a.joined.m3 s.seen3
    pub joins : Carries (d0, d1, d2, d3) n0 a.joined.fusion s.out

  -- Each list of `s` has room for `k` more messages.
  pub record Room (k : ℕ) (s : Seen M0 M1 M2 M3) : Type 0 where
    pub room1 : length s.seen1 + k + 3 < 2 ^ 64
    pub room2 : length s.seen2 + k + 3 < 2 ^ 64
    pub room3 : length s.seen3 + k + 3 < 2 ^ 64
    pub room_out : length s.out + k + 3 < 2 ^ 64

  abbrev nothing : Seen M0 M1 M2 M3
  nothing = record { seen1 = []; seen2 = []; seen3 = []; out = [] }

  create-Follows :
      n0 + 1 < 2 ^ 64
      → n1 + 1 < 2 ^ 64
      → n2 + 1 < 2 ^ 64
      → n3 + 1 < 2 ^ 64
      → Follows (create d0 d1 d2 d3 n0 n1 n2 n3) nothing
  unfolding create
  create-Follows a b c d = record {
    first = set_fusion_callback_lem (init d0 n0) (fuse d0 d1 d2 d3);
    carries1 = record { holds = init-Holds d1 n1 b; plain = fusion_callback-init d1 n1 };
    carries2 = record { holds = init-Holds d2 n2 c; plain = fusion_callback-init d2 n2 };
    carries3 = record { holds = init-Holds d3 n3 d; plain = fusion_callback-init d3 n3 };
    joins =
        subst
          (λ k.
            Carries {T = FusionData M0 M1 M2 M3} (d0, d1, d2, d3) n0 (init (d0, d1, d2, d3) k) [])
          (sym narrow)
          (record {
            holds = init-Holds (d0, d1, d2, d3) n0 a;
            plain = fusion_callback-init (d0, d1, d2, d3) n0;
          });
  }
    where
      narrow : sub_u64 (init {W = Joined M0 M1 M2 M3} d0 n0).capacity 1 ≡ n0
      narrow = rw (capacity-init (Joined M0 M1 M2 M3) d0 n0) (omega arith)

  fuse_latest-Carries :
      (b : Plain (FusionData M0 M1 M2 M3)) (out : List (FusionData M0 M1 M2 M3)) (v : M0)
      (o1 : Option M1) (o2 : Option M2) (o3 : Option M3)
      → length out + 3 < 2 ^ 64
      → Carries (d0, d1, d2, d3) n0 b out
      → Carries (d0, d1, d2, d3) n0 (fuse_latest d0 d1 d2 d3 b v o1 o2 o3) (out ++ join v o1 o2 o3)
  fuse_latest-Carries b out v (some v1) (some v2) (some v3) room c =
      put-Carries (d0, d1, d2, d3) n0 b out (v, v1, v2, v3) c room
  fuse_latest-Carries b out v (some v1) (some v2) none room c = rw (append-nil out) c
  fuse_latest-Carries b out v (some v1) none o3 room c = rw (append-nil out) c
  fuse_latest-Carries b out v none o2 o3 room c = rw (append-nil out) c

  step-Follows :
      (a : AllLatest M0 M1 M2 M3) (s : Seen M0 M1 M2 M3) (e : Arrival M0 M1 M2 M3)
      → 0 < n1
      → 0 < n2
      → 0 < n3
      → Room 0 s
      → Follows a s
      → Follows (step d0 d1 d2 d3 a e) (observe s e)
  unfolding step observe fuse
  step-Follows a s (on0 v) p1 p2 p3 r f =
      rw (fill_fused a.m0 v a.joined (fuse d0 d1 d2 d3) f.first, fuse)
        (rw
          (
            latest_lem d1 n1 a.joined.m1 s.seen1 f.carries1.holds p1,
            latest_lem d2 n2 a.joined.m2 s.seen2 f.carries2.holds p2,
            latest_lem d3 n3 a.joined.m3 s.seen3 f.carries3.holds p3,
          )
          (record {
            first = f.first;
            carries1 = f.carries1;
            carries2 = f.carries2;
            carries3 = f.carries3;
            joins =
                fuse_latest-Carries a.joined.fusion s.out v _ _ _ (omega (arith, r.room_out))
                  f.joins;
          }))
  step-Follows a s (on1 v) p1 p2 p3 r f = record {
    first = f.first;
    carries1 = put-Carries d1 n1 a.joined.m1 s.seen1 v f.carries1 (omega (arith, r.room1));
    carries2 = f.carries2;
    carries3 = f.carries3;
    joins = f.joins;
  }
  step-Follows a s (on2 v) p1 p2 p3 r f = record {
    first = f.first;
    carries1 = f.carries1;
    carries2 = put-Carries d2 n2 a.joined.m2 s.seen2 v f.carries2 (omega (arith, r.room2));
    carries3 = f.carries3;
    joins = f.joins;
  }
  step-Follows a s (on3 v) p1 p2 p3 r f = record {
    first = f.first;
    carries1 = f.carries1;
    carries2 = f.carries2;
    carries3 = put-Carries d3 n3 a.joined.m3 s.seen3 v f.carries3 (omega (arith, r.room3));
    joins = f.joins;
  }

  length-join :
      (v : M0) (o1 : Option M1) (o2 : Option M2) (o3 : Option M3) → length (join v o1 o2 o3) ≤ 1
  length-join v (some v1) (some v2) (some v3) = omega arith
  length-join v (some v1) (some v2) none = omega arith
  length-join v (some v1) none o3 = omega arith
  length-join v none o2 o3 = omega arith

  observe-Room :
      (k : ℕ) (s : Seen M0 M1 M2 M3) (e : Arrival M0 M1 M2 M3)
      → Room (suc k) s
      → Room k (observe s e)
  unfolding observe
  observe-Room k s (on0 v) r =
      let last = join v (get_last? s.seen1) (get_last? s.seen2) (get_last? s.seen3) in
      omega (
        arith,
        length-append s.out last,
        length-join v (get_last? s.seen1) (get_last? s.seen2) (get_last? s.seen3),
      )
  observe-Room k s (on1 v) r = omega (arith, length-append s.seen1 (v ∷ []))
  observe-Room k s (on2 v) r = omega (arith, length-append s.seen2 (v ∷ []))
  observe-Room k s (on3 v) r = omega (arith, length-append s.seen3 (v ∷ []))

  steps-Follows :
      (a : AllLatest M0 M1 M2 M3) (s : Seen M0 M1 M2 M3) (es : List (Arrival M0 M1 M2 M3))
      → 0 < n1
      → 0 < n2
      → 0 < n3
      → Room (length es) s
      → Follows a s
      → Follows (steps d0 d1 d2 d3 a es) (observe_all s es)
  unfolding steps observe_all
  steps-Follows a s [] p1 p2 p3 r f = f
  steps-Follows a s (e ∷ es) p1 p2 p3 r f =
      steps-Follows (step d0 d1 d2 d3 a e) (observe s e) es p1 p2 p3
        (observe-Room (length es) s e r) (step-Follows a s e p1 p2 p3 (omega arith) f)

  -- After any sequence of arrivals at four new buffers, `Fusion` at an index at most one too far
  -- returns what a reader of the joined messages is owed: those of the first channel that came when
  -- all others had a message, each joined with the last message of each other channel.
  pub fusion_lem :
      (es : List (Arrival M0 M1 M2 M3)) (i : ℕ)
      → 0 < n0
      → 0 < n1
      → 0 < n2
      → 0 < n3
      → n0 + 1 < 2 ^ 64
      → n1 + 1 < 2 ^ 64
      → n2 + 1 < 2 ^ 64
      → n3 + 1 < 2 ^ 64
      → length es + 3 < 2 ^ 64
      → i ≤ length (observe_all nothing es).out + 1
      → let joined = (observe_all nothing es).out in
        fusion d0 d1 d2 d3 (steps d0 d1 d2 d3 (create d0 d1 d2 d3 n0 n1 n2 n3) es) i
        ≡ delivery (d0, d1, d2, d3) joined i (owed n0 (length joined) i)
  unfolding fusion
  fusion_lem es i p0 p1 p2 p3 a b c d room reach =
      let f =
        steps-Follows (create d0 d1 d2 d3 n0 n1 n2 n3) nothing es p1 p2 p3 (omega arith)
          (create-Follows a b c d) in
      fetch_lem (d0, d1, d2, d3) n0 _ _ i f.joins.holds p0 reach
