-- ===== src/Tests/Server.antt =====
-- A redis server of the tests: keys without expiry, and one list of the members of all sorted sets,
-- newest first. No request is lost.
use codewave_timer.Base.{
  ◌≡◌, refl, ◌↔◌, inl, inr, Bool, true, false, ◌&&◌, Has, List, [], ◌∷◌, Option, none, some, Bytes,
  bytes_eq, bytes_eq→eq, Bool-cases, if◌then◌else◌, ℤ, pos, ◌≤ℤ◌, leb_ℤ, ltb_ℤ, ok, arith,
}
use codewave_timer.Redis.{RedisServer, IsRedis, HasSortedSets}

pub record Entry : Type 0 where
  pub key : Bytes
  pub member : Bytes
  pub score : ℤ

pub record World : Type 0 where
  pub kv : Bytes → Option Bytes
  pub entries : List Entry

abbrev pub empty : World
empty = record { kv = λ k. none; entries = [] }

abbrev set : Bytes → Option Bytes → World → World
set k v w = record w { kv = λ j. if bytes_eq k j then v else w.kv j }

abbrev pub server_set_nx : Bytes → Bytes → ℤ → World → Bool × World
server_set_nx k v ttl w = elim (w.kv k) [ none ↦ (true, set k (some v) w) | some u ↦ (false, w) ]

abbrev score_in : Bytes → Bytes → List Entry → Option ℤ
score_in k m [] = none
score_in k m (e ∷ es) =
    let rest = score_in k m es in
    if bytes_eq e.key k && bytes_eq e.member m then some e.score else rest

abbrev between : ℤ → ℤ → Option ℤ → Bool
between lo hi none = false
between lo hi (some sc) = leb_ℤ lo sc && leb_ℤ sc hi

-- The members of the entries `es` whose score in `all` is between the ends.
abbrev members_in : Bytes → ℤ → ℤ → List Entry → List Entry → List Bytes
members_in k lo hi all [] = []
members_in k lo hi all (e ∷ es) =
    let rest = members_in k lo hi all es in
    if bytes_eq e.key k && between lo hi (score_in k e.member all) then e.member ∷ rest else rest

abbrev pub server : RedisServer World
server = record {
  get = λ k w. w.kv k;
  set_nx = server_set_nx;
  del = λ k w. elim (w.kv k) [ none ↦ (0, w) | some u ↦ (1, set k none w) ];
  expire = λ k ttl w. elim (w.kv k) [
    | none ↦ (0, w)
    | some u ↦ (1, if ltb_ℤ (pos 0) ttl then w else set k none w)
  ];
  expire_after = λ k d w. if ltb_ℤ (pos 0) d then w else record w { entries = [] };
  zadd = λ k sc m w. record w { entries = record { key = k; member = m; score = sc } ∷ w.entries };
  zrange_by_score = λ k lo hi w. members_in k lo hi w.entries w.entries;
  send = λ A f w. (ok (f w).0, (f w).1);
}

pub server-IsRedis : IsRedis server
server-IsRedis = record {
  set_nx_free = λ k v ttl w free. (ground arith, λ j. ground arith);
  set_nx_held = λ k v ttl w taken. ground arith;
  del_held = λ k w taken. (ground arith, λ j. ground arith);
  expire_held = λ k ttl w taken positive. (ground arith, λ j. ground arith);
  sends = λ A f w. inl refl;
}

members_in-Has :
    (k : Bytes) (lo hi : ℤ) (m : Bytes) (all es : List Entry)
    → Has m (members_in k lo hi all es)
    → between lo hi (score_in k m all) ≡ true
members_in-Has k lo hi m all [] h = elim h [ ]
members_in-Has k lo hi m all (e ∷ es) h =
    elim (Bool-cases (bytes_eq e.key k && between lo hi (score_in k e.member all))) [
      | inr out ↦ members_in-Has k lo hi m all es (rw out at h)
      | inl kept ↦ elim (rw kept at h) [
        | inl same ↦ rw same (ground arith)
        | inr rest ↦ members_in-Has k lo hi m all es rest
      ]
    ]

keeps :
    (b : Bool) (m other : Bytes) (rest : List Bytes)
    → Has m rest
    → Has m (if b then other ∷ rest else rest)
keeps true m other rest h = inr h
keeps false m other rest h = h

found :
    (k : Bytes) (lo hi : ℤ) (m : Bytes) (all : List Entry) (e : Entry) (es : List Entry)
    → bytes_eq e.key k ≡ true
    → e.member ≡ m
    → between lo hi (score_in k m all) ≡ true
    → Has m (members_in k lo hi all (e ∷ es))
found k lo hi m all e es h same b = rw (h, same, b) (inl refl)

Has-members_in :
    (k : Bytes) (lo hi : ℤ) (m : Bytes) (all es : List Entry) {sc : ℤ}
    → score_in k m es ≡ some sc
    → between lo hi (score_in k m all) ≡ true
    → Has m (members_in k lo hi all es)
Has-members_in k lo hi m all [] h b = absurd (ground arith)
Has-members_in k lo hi m all (e ∷ es) h b =
    elim (Bool-cases (bytes_eq e.key k && bytes_eq e.member m)) [
      | inl here ↦ found k lo hi m all e es (ground arith) (bytes_eq→eq e.member m (ground arith)) b
      | inr there ↦
          keeps (bytes_eq e.key k && between lo hi (score_in k e.member all)) m e.member _
            (Has-members_in k lo hi m all es (rw there at h) b)
    ]

between_iff :
    (lo hi : ℤ) (o : Option ℤ)
    → (between lo hi o ≡ true) ↔ ((sc : ℤ) × (o ≡ some sc) × (lo ≤ℤ sc) × (sc ≤ℤ hi))
between_iff lo hi none = (λ h. absurd (ground arith), λ h. absurd (ground arith))
between_iff lo hi (some sc) = (λ h. (sc, refl, ground arith, ground arith), λ h. ground arith)

pub server-HasSortedSets : HasSortedSets server
server-HasSortedSets = record {
  score = λ k m w. score_in k m w.entries;
  score-zadd = λ key member sc k m w. refl;
  score-expire_after = λ key d k m w positive. ground arith;
  zrange_by_score_iff = λ key lo hi m w. (
    λ h.
        (between_iff lo hi (score_in key m w.entries)).0
          (members_in-Has key lo hi m w.entries w.entries h),
    λ h.
        Has-members_in key lo hi m w.entries w.entries h.1
          ((between_iff lo hi (score_in key m w.entries)).1 h),
  );
}

-- An entry under a key of its own leaves the scores of other keys.
pub score_apart :
    (e : Entry) (k m : Bytes) (w : World)
    → bytes_eq e.key k ≡ false
    → server-HasSortedSets.score k m (record w { entries = e ∷ w.entries })
      ≡ server-HasSortedSets.score k m w
unfolding server-HasSortedSets
score_apart e k m w apart = rw apart refl
