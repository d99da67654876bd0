-- ===== src/Reviews/Runs.antt =====
-- Reviews against sales, over runs of both: the routes over reviews and the handlers over sales.
use bidvault_backend.Common.{ℕ, Option, String, lookup, ◌≡◌, refl, none, ap}
use bidvault_backend.Store.Queries.{BidQueries}
use bidvault_backend.Reviews.{
  ReviewState, create_review, edit_review, delete_review, reply_to_review,
}
use bidvault_backend.Store.{World}
use bidvault_backend.Reviews.Genuine.{
  AreGenuine, step-AreGenuine, create-ReviewStep, edit-ReviewStep, delete-ReviewStep,
  reply-ReviewStep, ReviewStep,
}
use bidvault_backend.Sales.Runs.{Run, Run-final, Run-AreDisputed}
use bidvault_backend.Sales.Disputed.{AreDisputed}

-- A request over reviews, with a new id for a new one, or any handlers over sales in between.
pub data ReviewCall (q : BidQueries) (s : ReviewState) : ReviewState → Type 0 where
  create :
      (now id t buyer_id stars : ℕ) (comment : Option String)
      → lookup id s.reviews ≡ none
      → ReviewCall q s (create_review now id t buyer_id stars comment s).1
  edit :
      (now hours id user_id : ℕ) (stars : Option ℕ) (comment : Option (Option String))
      → ReviewCall q s (edit_review now hours id user_id stars comment s).1
  delete : (now hours id user_id : ℕ) → ReviewCall q s (delete_review now hours id user_id s).1
  reply :
      (now id user_id : ℕ) (text : String)
      → ReviewCall q s (reply_to_review now id user_id text s).1
  sales : (w : World) → Run q s.world w → ReviewCall q s (record s { world = w })

pub data ReviewRun (q : BidQueries) (s : ReviewState) : ReviewState → Type 0 where
  start : ReviewRun q s s
  then : {u v : ReviewState} → ReviewRun q s u → ReviewCall q u v → ReviewRun q s v

sales-AreGenuine :
    {q : BidQueries} (s : ReviewState) (w : World)
    → Run q s.world w
    → AreDisputed s.world
    → AreGenuine s
    → AreGenuine (record s { world = w })
sales-AreGenuine s w run disputes good = record {
  of_sale = λ i r h.
      let (sale, sold, done, buyer, seller) = good.of_sale i r h in
      (sale, Run-final r.transaction_id sale run disputes sold (rw done refl), done, buyer, seller);
  once = good.once;
}

ReviewCall-AreGenuine :
    {q : BidQueries} {s s' : ReviewState}
    → ReviewCall q s s'
    → AreDisputed s.world
    → AreGenuine s
    → AreGenuine s'
ReviewCall-AreGenuine {q} {s} {s'} (ReviewCall.create now id t b stars c fresh) disputes good =
    step-AreGenuine s s' good (create-ReviewStep now id t b stars c s fresh)
ReviewCall-AreGenuine {q} {s} {s'} (ReviewCall.edit now hours id u stars c) disputes good =
    step-AreGenuine s s' good (edit-ReviewStep now hours id u stars c s)
ReviewCall-AreGenuine {q} {s} {s'} (ReviewCall.delete now hours id u) disputes good =
    step-AreGenuine s s' good (delete-ReviewStep now hours id u s)
ReviewCall-AreGenuine {q} {s} {s'} (ReviewCall.reply now id u text) disputes good =
    step-AreGenuine s s' good (reply-ReviewStep now id u text s)
ReviewCall-AreGenuine {q} {s} {s'} (ReviewCall.sales w run) disputes good =
    sales-AreGenuine s w run disputes good

-- A route over reviews leaves the sales and the disputes alone.
ReviewStep-world : {s s' : ReviewState} → ReviewStep s s' → s'.world ≡ s.world
ReviewStep-world (ReviewStep.kept same) = ap (λ s. s.world) same
ReviewStep-world (ReviewStep.added id t r sale a b c d e f g h world) = world
ReviewStep-world (ReviewStep.changed id r r' a b c d h world) = world
ReviewStep-world (ReviewStep.dropped id h world) = world

ReviewCall-AreDisputed :
    {q : BidQueries} {s s' : ReviewState}
    → ReviewCall q s s'
    → AreDisputed s.world
    → AreDisputed s'.world
ReviewCall-AreDisputed {q} {s} (ReviewCall.create now id t b stars c fresh) disputes =
    rw (ReviewStep-world (create-ReviewStep now id t b stars c s fresh)) disputes
ReviewCall-AreDisputed {q} {s} (ReviewCall.edit now hours id u stars c) disputes =
    rw (ReviewStep-world (edit-ReviewStep now hours id u stars c s)) disputes
ReviewCall-AreDisputed {q} {s} (ReviewCall.delete now hours id u) disputes =
    rw (ReviewStep-world (delete-ReviewStep now hours id u s)) disputes
ReviewCall-AreDisputed {q} {s} (ReviewCall.reply now id u text) disputes =
    rw (ReviewStep-world (reply-ReviewStep now id u text s)) disputes
ReviewCall-AreDisputed (ReviewCall.sales w run) disputes = Run-AreDisputed run disputes

ReviewRun-AreDisputed :
    {q : BidQueries} {s s' : ReviewState}
    → ReviewRun q s s'
    → AreDisputed s.world
    → AreDisputed s'.world
ReviewRun-AreDisputed ReviewRun.start disputes = disputes
ReviewRun-AreDisputed (ReviewRun.then run call) disputes =
    ReviewCall-AreDisputed call (ReviewRun-AreDisputed run disputes)

-- Through any run of requests over reviews and of handlers over sales that starts with open disputes
-- on DISPUTED sales, each on its own: each review is about a sale that is DELIVERED, by its winner and
-- about its seller, and no sale has two reviews, if it was so before.
pub ReviewRun-AreGenuine :
    {q : BidQueries} {s s' : ReviewState}
    → ReviewRun q s s'
    → AreDisputed s.world
    → AreGenuine s
    → AreGenuine s'
ReviewRun-AreGenuine ReviewRun.start disputes good = good
ReviewRun-AreGenuine (ReviewRun.then run call) disputes good =
    ReviewCall-AreGenuine call (ReviewRun-AreDisputed run disputes)
      (ReviewRun-AreGenuine run disputes good)
