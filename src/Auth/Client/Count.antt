-- ===== src/Auth/Client/Count.antt =====
-- The requests, sends and settlements of one call, counted.
use iop.Base.{
  ℕ, ◌+◌, ◌≡◌, refl, inl, inr, Bool, true, not, ◌&&◌, List, [], ◌∷◌, ◌++◌, map, Option, none, some,
  Text, arith, if◌then◌else◌, Bool-cases, every, nat_eq, ◌==◌,
}
use iop.Auth.Client.{
  Client, Request, Event, issued, Effect, sent, delivered, failed, pull, passed_by, failures,
  resent, authorize,
}

abbrev pub one : Bool → ℕ
one b = if b then 1 else 0

abbrev pub count_id : ℕ → List Request → ℕ
count_id k [] = 0
count_id k (r ∷ rs) = one (r.id == k) + count_id k rs

-- Calls that are not settled.
abbrev pub pending : ℕ → Client → ℕ
pending k s = count_id k s.in_flight + count_id k s.waiting

-- Effects that settle the call, and those that send it.
abbrev pub settles : ℕ → Effect → ℕ
settles k (delivered id) = one (id == k)
settles k (failed id) = one (id == k)
settles k e = 0

abbrev pub settled : ℕ → List Effect → ℕ
settled k [] = 0
settled k (e ∷ es) = settles k e + settled k es

abbrev pub sends : ℕ → Effect → ℕ
sends k (sent r) = one (r.id == k)
sends k e = 0

abbrev pub sent_count : ℕ → List Effect → ℕ
sent_count k [] = 0
sent_count k (e ∷ es) = sends k e + sent_count k es

abbrev pub issues : ℕ → Event → ℕ
issues k (issued id url) = one (id == k)
issues k e = 0

abbrev pub issued_count : ℕ → List Event → ℕ
issued_count k [] = 0
issued_count k (e ∷ es) = issues k e + issued_count k es

-- The times that the requests on their way can still be sent.
abbrev pub chances : ℕ → List Request → ℕ
chances k [] = 0
chances k (r ∷ rs) = one (r.id == k && not r.retry) + chances k rs

abbrev pub chances_left : ℕ → Client → ℕ
chances_left k s = chances k s.in_flight + count_id k s.waiting

pub count_id-append :
    (k : ℕ) (rs qs : List Request) → count_id k (rs ++ qs) ≡ count_id k rs + count_id k qs
count_id-append k [] qs = omega arith
count_id-append k (r ∷ rs) qs = omega (arith, count_id-append k rs qs)

pub chances-append :
    (k : ℕ) (rs qs : List Request) → chances k (rs ++ qs) ≡ chances k rs + chances k qs
chances-append k [] qs = omega arith
chances-append k (r ∷ rs) qs = omega (arith, chances-append k rs qs)

pub settled-append :
    (k : ℕ) (es fs : List Effect) → settled k (es ++ fs) ≡ settled k es + settled k fs
settled-append k [] fs = omega arith
settled-append k (e ∷ es) fs = omega (arith, settled-append k es fs)

pub sent_count-append :
    (k : ℕ) (es fs : List Effect) → sent_count k (es ++ fs) ≡ sent_count k es + sent_count k fs
sent_count-append k [] fs = omega arith
sent_count-append k (e ∷ es) fs = omega (arith, sent_count-append k es fs)

-- What `pull` splits off, counted.
abbrev pub Split : ℕ → Option (Request × List Request) → List Request → Type 0
Split k none rs = Unit
Split k (some p) rs =
    (count_id k rs ≡ one (p.0.id == k) + count_id k p.1)
    × (chances k rs ≡ one (p.0.id == k && not p.0.retry) + chances k p.1)

Split-cons :
    (k : ℕ) (r : Request) (o : Option (Request × List Request)) (rs : List Request)
    → Split k o rs
    → Split k (passed_by r o) (r ∷ rs)
Split-cons k r none rs h = tt
Split-cons k r (some p) rs h =
    let count = h.0 in let left = h.1 in (omega (arith, count), omega (arith, left))

pub Split-pull : (k id : ℕ) (rs : List Request) → Split k (pull id rs) rs
unfolding pull
Split-pull k id [] = tt
Split-pull k id (r ∷ rs) = elim (Bool-cases (r.id == id)) [
  | inl e ↦ rw e (refl, refl)
  | inr e ↦ rw e (Split-cons k r (pull id rs) rs (Split-pull k id rs))
]

pub effects-failures :
    (k : ℕ) (rs : List Request)
    → (settled k (failures rs) ≡ count_id k rs) × (sent_count k (failures rs) ≡ 0)
effects-failures k [] = (refl, refl)
effects-failures k (r ∷ rs) =
    let rest = effects-failures k rs in
    let count = rest.0 in let none_sent = rest.1 in (omega (arith, count), omega (arith, none_sent))

pub effects-resent :
    (k : ℕ) (rs : List Request)
    → (settled k (resent rs) ≡ 0) × (sent_count k (resent rs) ≡ count_id k rs)
effects-resent k [] = (refl, refl)
effects-resent k (r ∷ rs) =
    let rest = effects-resent k rs in
    let count = rest.0 in let none_sent = rest.1 in (omega (arith, count), omega (arith, none_sent))

pub id-authorize : (t : Option Text) (r : Request) → (authorize t r).id ≡ r.id
id-authorize none r = refl
id-authorize (some t) r = ground arith

retry-authorize : (t : Option Text) (r : Request) → (authorize t r).retry ≡ r.retry
retry-authorize none r = refl
retry-authorize (some t) r = ground arith

pub count_id-authorize :
    (k : ℕ) (t : Option Text) (rs : List Request)
    → count_id k (map (authorize t) rs) ≡ count_id k rs
count_id-authorize k t [] = refl
count_id-authorize k t (r ∷ rs) = rw (id-authorize t r) (omega (arith, count_id-authorize k t rs))

abbrev pub is_marked : Request → Bool
is_marked r = r.retry

-- The requests whose handler awaits the refresh are marked as retried.
abbrev pub IsMarked : Client → Type 0
IsMarked s = every is_marked s.waiting ≡ true

pub every-append :
    (rs qs : List Request) → every is_marked (rs ++ qs) ≡ (every is_marked rs && every is_marked qs)
every-append [] qs = refl
every-append (r ∷ rs) qs = ground (arith, every-append rs qs)

pub chances-authorize :
    (k : ℕ) (t : Option Text) (rs : List Request)
    → every is_marked rs ≡ true
    → chances k (map (authorize t) rs) ≡ 0
chances-authorize k t [] h = refl
chances-authorize k t (r ∷ rs) h =
    rw (id-authorize t r) (rw (retry-authorize t r) (ground (arith, chances-authorize k t rs)))
