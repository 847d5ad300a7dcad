-- ===== src/Runtime/Publisher/Batches.antt =====
-- What a Redis subscriber yields does not depend on how XREAD cuts the stream.
use oriion.Prelude.{
  Bool, true, false, ◌≡◌, refl, sym, ap, ◌∙◌, List, [], ◌∷◌, ◌++◌, All, arith, if◌then◌else◌,
}
use oriion.Runtime.Events.{TaskStreamEvent, is_last, goes_on}
use oriion.Runtime.Publisher.{from_batch, redis_subscribe}
use oriion.Runtime.Publisher.Delivery.{IsLedger}

abbrev pub concat : List (List TaskStreamEvent) → List TaskStreamEvent
concat [] = []
concat (b ∷ bs) = b ++ concat bs

abbrev Yield : Type 0
Yield = List TaskStreamEvent × Bool

from_batch-append :
    (xs ys : List TaskStreamEvent) (r : Yield)
    → from_batch (xs ++ ys) r ≡ from_batch xs (from_batch ys r)
unfolding from_batch
from_batch-append [] ys r = refl
from_batch-append (x ∷ xs) ys r =
    ap (λ (y : Yield). if is_last x then (x ∷ [], true) else (x ∷ y.0, y.1))
      (from_batch-append xs ys r)

one_batch :
    (bs : List (List TaskStreamEvent)) → redis_subscribe bs ≡ from_batch (concat bs) ([], false)
unfolding redis_subscribe
one_batch [] = unfold from_batch in refl
one_batch (b ∷ bs) =
    ap (from_batch b) (one_batch bs) ∙ sym (from_batch-append b (concat bs) ([], false))

until_last :
    (body : List TaskStreamEvent) (last : TaskStreamEvent)
    → All (λ e. goes_on e ≡ true) body
    → is_last last ≡ true
    → from_batch (body ++ last ∷ []) ([], false) ≡ (body ++ last ∷ [], true)
unfolding from_batch
until_last [] last g l = rw l refl
until_last (x ∷ body) last g l =
    let stays : is_last x ≡ false = ground (arith, g.0) in
    rw stays (ap (λ (y : Yield). (x ∷ y.0, y.1)) (until_last body last g.1 l))

pub redis_subscribe_all :
    (bs : List (List TaskStreamEvent))
    → IsLedger (concat bs)
    → redis_subscribe bs ≡ (concat bs, true)
redis_subscribe_all bs l =
    one_batch bs
    ∙ ap (λ (es : List TaskStreamEvent). from_batch es ([], false)) l.is
    ∙ until_last l.body l.last l.body_goes_on l.last_ends
    ∙ ap (λ (es : List TaskStreamEvent). (es, true)) (sym l.is)
