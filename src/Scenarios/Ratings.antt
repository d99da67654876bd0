-- ===== src/Scenarios/Ratings.antt =====
-- Buyer 3 reviews the delivered lamp, and seller 1 replies.
use bidvault_backend.Common.{[], lookup, arith, ◌≡◌, some, none, refl}
use bidvault_backend.Reviews.{create_review, ReviewState, reply_to_review, ReviewAnswer}
use bidvault_backend.Reviews.Genuine.{AreGenuine}
use bidvault_backend.Scenarios.Market.{with_delivered}
use bidvault_backend.Reviews.Runs.{ReviewRun-AreGenuine, ReviewRun, ReviewCall}
use bidvault_backend.Store.Queries.Scan.{scan_queries}
use bidvault_backend.Sales.Disputed.{AreDisputed}

abbrev no_reviews : ReviewState
no_reviews = record { world = with_delivered; reviews = []; notices = [] }

fresh_review : lookup 70 no_reviews.reviews ≡ none
unfolding lookup
fresh_review = refl

no_reviews-AreGenuine : AreGenuine no_reviews
unfolding lookup
no_reviews-AreGenuine = record {
  of_sale = λ i r h. absurd (ground arith);
  once = λ i j r r' h h' same. absurd (ground arith);
}

no_disputes : AreDisputed with_delivered
unfolding lookup
no_disputes = record {
  keyed = tt;
  on = λ i d h is_open. absurd (ground arith);
  alone = λ i j d e h k same. absurd (ground arith);
}

review_given :
    (create_review 990000 70 30 3 5 (some "Bright") no_reviews).0 ≡ ReviewAnswer.reviewed 70
unfolding create_review lookup
review_given = refl

ReviewRun-AreGenuine_example :
    AreGenuine
      (reply_to_review 999000 70 1 "Thanks"
        (create_review 990000 70 30 3 5 (some "Bright") no_reviews).1).1
ReviewRun-AreGenuine_example =
    ReviewRun-AreGenuine {q = scan_queries}
      (ReviewRun.then
        (ReviewRun.then ReviewRun.start
          (ReviewCall.create 990000 70 30 3 5 (some "Bright") fresh_review))
        (ReviewCall.reply 999000 70 1 "Thanks"))
      no_disputes no_reviews-AreGenuine
