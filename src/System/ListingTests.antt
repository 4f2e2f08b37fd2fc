-- ===== src/System/ListingTests.antt =====
-- The list of an account's events, at a run of both services on the sample platform.
use mathlib.Core.List.Perm
use distr_sys_itrvw.Base.{◌≡◌, [], ◌∷◌}
use distr_sys_itrvw.Shared.Text.{codes}
use distr_sys_itrvw.Shared.Rows.{Engine}
use distr_sys_itrvw.Shared.Contracts.Samples.{sample_platform, sample_laws}
use distr_sys_itrvw.Shared.Contracts.Payloads.{salary}
use distr_sys_itrvw.Gateway
use distr_sys_itrvw.Gateway.Log.{Log, IsLog, encode_all}
use distr_sys_itrvw.Gateway.Log.Listing.{IsListing}
use distr_sys_itrvw.Gateway.Main.{answered}
use distr_sys_itrvw.Gateway.Main.Reads.{list_events}
use distr_sys_itrvw.System.{Json, World}
use distr_sys_itrvw.System.Listings.{AllHeld, list_events-IsListing}
use distr_sys_itrvw.System.Tests.{sample_encoding, engine, frame, reading, reading-Reach}

abbrev visit : Engine Gateway.Repository.Row
visit = record { scan = λ t. t; scan-perm = Perm.refl }

list_events-IsListing_example :
    (l : Log sample_platform) × IsLog sample_platform l
    × (reading.repository ≡ encode_all sample_platform l)
    × AllHeld sample_platform sample_laws sample_encoding reading.world.account.repository l
    × (rs : Log sample_platform) × (list_events sample_platform
          (Json sample_platform.Metadata sample_encoding.Float)
          World
          visit
          (codes "a")
          reading
        ≡ answered 200 rs)
    × IsListing sample_platform (codes "a") l rs
list_events-IsListing_example =
    list_events-IsListing sample_platform sample_laws sample_encoding engine frame visit reading
      (salary ∷ []) (codes "a") reading-Reach
