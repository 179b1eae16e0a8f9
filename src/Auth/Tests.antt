-- ===== src/Auth/Tests.antt =====
-- A client's header, with a decoder that leaves its text as it is.
use sippin_soda.Base.{◌≡◌, refl, true, false, some}
use sippin_soda.Text.{Text, text, methods}
use sippin_soda.Auth.{Crypto, ProxyClientAuth, accepts, accepts_basic, accepts_pair, split_once}

abbrev crypto : Crypto
crypto = record { decode = λ t. some t; sha256 = λ bytes. bytes }

abbrev token : Text
token = text "0123456789abcdef0123456789ABCDEF"

abbrev auth : ProxyClientAuth
auth = record { profile_id = text "phone"; token_sha256 = token }

abbrev header : Text
header = text "bAsIc phone:0123456789abcdef0123456789ABCDEF"

accepted : accepts crypto auth (some header) ≡ true
unfolding accepts accepts_basic accepts_pair split_once methods
accepted = refl

-- The colon of the name ends it.
other_refused :
    accepts crypto auth (some (text "Basic phone2:0123456789abcdef0123456789ABCDEF")) ≡ false
unfolding accepts accepts_basic accepts_pair split_once methods
other_refused = refl
