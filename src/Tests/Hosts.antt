-- ===== src/Tests/Hosts.antt =====
-- The classes of two hosts.
use tortureu.Base.{String, [], ◌∷◌, none, some, ◌≡◌, refl, Dict, lookup}
use tortureu.Egress.{Class, classify, check_unclassified, audit}
use tortureu.Egress.Classify.{resolved, lookup-classify}
use tortureu.Egress.Audit.{IsSafeClass, check_unclassified_sound}
use tortureu.Tests.Data.{egress}

abbrev detected : Dict String
detected = ("db:5432", "internal") ∷ ("smtp.example.com:25", "unclassified") ∷ []

lookup-classify_example :
    lookup "smtp.example.com:25" (classify detected egress)
    ≡ resolved detected egress "smtp.example.com:25"
lookup-classify_example = lookup-classify detected egress "smtp.example.com:25" (refl, (refl, tt))

abbrev classes : Dict Class
classes = ("db:5432", "internal") ∷ ("api.stripe.com:443", "mock") ∷ []

all_classified : check_unclassified classes ≡ none
unfolding check_unclassified tortureu.Egress.unclassified_hosts
all_classified = refl

check_unclassified_sound_example :
    ((h : String) (c : Class) → lookup h classes ≡ some c → IsSafeClass c)
    × ((audit classes).unclassified ≡ [])
check_unclassified_sound_example = check_unclassified_sound classes all_classified
