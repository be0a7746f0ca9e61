-- ===== src/Queue/Share.antt =====
-- The ids that fall to one worker, and where they stand in the list.
use k_indexer.Prelude.{
  ℕ, zero, suc, ◌+◌, ◌*◌, ◌-◌, ◌%◌, ◌<◌, ◌≡◌, ◌≢◌, ◌⊎◌, inl, inr, Bool-cases, ltb→lt, refl, sym, ap,
  ◌∙◌, true, false, List, [], ◌∷◌, ◌++◌, ◌==◌, if◌then◌else◌, ltb, leb, length, get_elem?, arith,
  All,
}
use k_indexer.Text.{Text}
use k_indexer.Queue.{Channel, send, send_to}

pub next : (c n : ℕ) → suc c < n → (c + 1) % n ≡ c + 1
next c n h = grind arith

pub wrap : (c n : ℕ) → suc c ≡ n → (c + 1) % n ≡ 0
wrap c n h = grind arith

abbrev pub items_of : ℕ → List Channel → List Text
items_of j [] = []
items_of zero (c ∷ cs) = c.items
items_of (suc j) (c ∷ cs) = items_of j cs

abbrev pub IsOpen : Channel → Type 0
IsOpen c = c.is_open ≡ true

pub send_to-suc :
    (i : ℕ) (item : Text) (c : Channel) (cs : List Channel)
    → send_to (suc i) item (c ∷ cs) ≡ c ∷ send_to i item cs
unfolding send_to
send_to-suc i item c cs = ground arith

pub items_of-send_to :
    (i j : ℕ) (item : Text) (cs : List Channel)
    → All IsOpen cs
    → i < length cs
    → items_of j (send_to i item cs)
      ≡ (if i == j then items_of j cs ++ (item ∷ []) else items_of j cs)
unfolding send_to send
items_of-send_to i j item [] o h = ground arith
items_of-send_to zero zero item (c ∷ cs) o h = ground arith
items_of-send_to zero (suc j) item (c ∷ cs) o h = ground arith
items_of-send_to (suc i) zero item (c ∷ cs) o h = rw (send_to-suc i item c cs) (ground arith)
items_of-send_to (suc i) (suc j) item (c ∷ cs) o h =
    rw (send_to-suc i item c cs) (ground (arith, items_of-send_to i j item cs o.1))

pub length-send_to :
    (i : ℕ) (item : Text) (cs : List Channel) → length (send_to i item cs) ≡ length cs
unfolding send_to
length-send_to i item [] = refl
length-send_to zero item (c ∷ cs) = refl
length-send_to (suc i) item (c ∷ cs) =
    rw (send_to-suc i item c cs) (ap suc (length-send_to i item cs))

pub send_to-IsOpen :
    (i : ℕ) (item : Text) (cs : List Channel) → All IsOpen cs → All IsOpen (send_to i item cs)
unfolding send_to send
send_to-IsOpen i item [] o = tt
send_to-IsOpen zero item (c ∷ cs) o = ground arith
send_to-IsOpen (suc i) item (c ∷ cs) o =
    rw (send_to-suc i item c cs) (o.0, send_to-IsOpen i item cs o.1)

-- What worker j is given of the ids when the next worker is c.
unfoldable pub share : ℕ → ℕ → ℕ → List Text → List Text
share n c j [] = []
share n c j (id ∷ ids) =
    let rest = share n ((c + 1) % n) j ids in if c == j then id ∷ rest else rest

-- The position of worker j's next id.
abbrev pub distance : ℕ → ℕ → ℕ → ℕ
distance n c j = if leb c j then j - c else j + n - c

pub next-lt : (c n : ℕ) → c < n → (c + 1) % n < n
next-lt c n h = omega arith

-- The next worker is the one behind, or the first.
pub advance :
    (c n : ℕ) → c < n → ((suc c < n) × ((c + 1) % n ≡ c + 1)) ⊎ ((suc c ≡ n) × ((c + 1) % n ≡ 0))
advance c n h = elim (Bool-cases (ltb (suc c) n)) [
  | inl e ↦ let lt : suc c < n = ltb→lt (suc c) n e in inl (lt, next c n lt)
  | inr e ↦ let eq : suc c ≡ n = ground arith in inr (eq, wrap c n eq)
]

pub distance-zero : (n j : ℕ) → distance n 0 j ≡ j
distance-zero n j = ground arith

pub distance-ne :
    (n c j : ℕ) → c < n → j < n → c ≢ j → distance n c j ≡ suc (distance n ((c + 1) % n) j)
distance-ne n c j hc hj ne = ground (arith, advance c n hc)

pub distance_self : (n c : ℕ) → c < n → suc (distance n ((c + 1) % n) c) ≡ n
distance_self n c hc = ground (arith, advance c n hc)

pub get_elem?-suc :
    (id : Text) (ids : List Text) {m : ℕ} (m' : ℕ)
    → m ≡ suc m'
    → get_elem? (id ∷ ids) m ≡ get_elem? ids m'
get_elem?-suc id ids m' e = rw e

pub share_self :
    (n c : ℕ) (id : Text) (ids : List Text)
    → share n c c (id ∷ ids) ≡ id ∷ share n ((c + 1) % n) c ids
unfolding share
share_self n c id ids = ground arith

pub share-ne :
    (n c j : ℕ) (id : Text) (ids : List Text)
    → (c == j) ≡ false
    → share n c j (id ∷ ids) ≡ share n ((c + 1) % n) j ids
unfolding share
share-ne n c j id ids h = ground arith

-- The worker whose turn it is gets this id, and its next one n ids later.
pub get_elem?-share_self :
    (n c k : ℕ) (id : Text) (ids : List Text)
    → c < n
    → ((k' : ℕ)
        → get_elem? (share n ((c + 1) % n) c ids) k'
          ≡ get_elem? ids (k' * n + distance n ((c + 1) % n) c))
    → get_elem? (share n c c (id ∷ ids)) k ≡ get_elem? (id ∷ ids) (k * n + distance n c c)
get_elem?-share_self n c zero id ids hc ih =
    rw (share_self n c id ids) (let e : 0 * n + distance n c c ≡ 0 = ground arith in rw e)
get_elem?-share_self n c (suc k) id ids hc ih =
    let d = distance n ((c + 1) % n) c in
    let e : suc k * n + distance n c c ≡ suc (k * n + d) = ground (arith, distance_self n c hc) in
    rw (share_self n c id ids) (ih k ∙ sym (get_elem?-suc id ids (k * n + d) e))

pub get_elem?-share :
    (n c j k : ℕ) (ids : List Text)
    → c < n
    → j < n
    → get_elem? (share n c j ids) k ≡ get_elem? ids (k * n + distance n c j)
unfolding share
get_elem?-share n c j k [] hc hj = refl
get_elem?-share n c j k (id ∷ ids) hc hj = elim (Bool-cases (c == j)) [
  | inl e ↦
      let same : c ≡ j = ground arith in
      rw same (
        get_elem?-share_self n j k id ids hj
          λ k'. get_elem?-share n ((j + 1) % n) j k' ids (next-lt j n hj) hj)
  | inr e ↦
      let ne : c ≢ j = ground arith in
      rw (share-ne n c j id ids e) (
        get_elem?-share n ((c + 1) % n) j k ids (next-lt c n hc) hj
        ∙ sym (
            get_elem?-suc id ids (k * n + distance n ((c + 1) % n) j)
              (omega (arith, distance-ne n c j hc hj ne))))
]
