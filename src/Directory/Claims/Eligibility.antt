-- ===== src/Directory/Claims/Eligibility.antt =====
-- Who may prove a claim by mail (directory/claims.py). Python's text functions and its URL parser are
-- parameters.
use Prim.Native.String.{◌++◌ as append}
use osds.Prelude.{
  ℕ, String, Bool, true, false, not, ◌||◌, Option, none, some, List, [], ◌∷◌, any, is_some,
  if◌then◌else◌,
}
use text.Mathlib.Text.{◌==◌ as str_eq}
use osds.Billing.Model.{Owner}
use osds.Directory.Claims.State.{
  Guard, Listing, ReviewReason, no_website, locked, mail_unavailable, address_mismatch,
}
use osds.Directory.Claims.Tables.{guard_of}

-- `str.strip`, `str.lower`, `host.split(":", 1)[0]`, `host.rstrip(".")`, the IDNA encoding (null where
-- it is an error), `urlsplit(...).hostname`, `host.split(".")`, `email.rpartition("@")[2]`, `host[4:]`
-- where the host starts with "www.", and `"//" in website`.
pub record Text : Type 0 where
  pub strip : String → String
  pub lower : String → String
  pub drop_port : String → String
  pub strip_dots : String → String
  pub idna : String → Option String
  pub hostname : String → Option String
  pub labels : String → List String
  pub domain_part : String → String
  pub drop_www : String → Option String
  pub has_slashes : String → Bool

abbrev pub platform_hosts : List String
platform_hosts =
    "facebook.com" ∷ "instagram.com" ∷ "x.com" ∷ "twitter.com" ∷ "linkedin.com" ∷ "yelp.com"
    ∷ "youtube.com" ∷ "tiktok.com" ∷ "pinterest.com" ∷ "etsy.com" ∷ "amazon.com" ∷ "ebay.com"
    ∷ "wixsite.com" ∷ "squarespace.com" ∷ "weebly.com" ∷ "godaddysites.com" ∷ "business.site"
    ∷ "wordpress.com" ∷ "blogspot.com" ∷ "carrd.co" ∷ "linktr.ee" ∷ "google.com" ∷ "g.page"
    ∷ "square.site" ∷ []

unfoldable pub is_platform_host : String → Bool
is_platform_host host = any (str_eq host) platform_hosts

abbrev or_same : Option String → String → String
or_same none host = host
or_same (some h) host = h

-- `normalize_host`
unfoldable pub normalize_host : Text → String → Bool → String
normalize_host text host strip_www =
    let lowered = text.lower (text.strip host) in
    if str_eq lowered ""
    then lowered
    else (let bare = text.strip_dots (text.drop_port lowered) in
        let ascii = or_same (text.idna bare) bare in
        if strip_www then or_same (text.drop_www ascii) ascii else ascii)

-- `_website_host`
unfoldable pub website_host : Text → Listing → Option String
website_host text listing =
    let website = text.strip listing.website in
    if str_eq website ""
    then none
    else elim (text.hostname (if text.has_slashes website then website else append "//" website)) [
      | none ↦ none
      | some host ↦ if str_eq host "" then none else some host
    ]

-- `".".join(labels)`
unfoldable pub join : List String → String
join [] = ""
join (l ∷ []) = l
join (l ∷ m ∷ labels) = append l (append "." (join (m ∷ labels)))

-- some proper suffix of the labels is a platform's
unfoldable pub has_platform_suffix : List String → Bool
unfolding join
has_platform_suffix [] = false
has_platform_suffix (l ∷ []) = false
has_platform_suffix (l ∷ m ∷ labels) =
    is_platform_host (join (m ∷ labels)) || has_platform_suffix (m ∷ labels)

-- `domain_email_host`
unfoldable pub domain_email_host : Text → Listing → Option String
unfolding website_host normalize_host has_platform_suffix
domain_email_host text listing = elim (website_host text listing) [
  | none ↦ none
  | some raw ↦
      let host = normalize_host text raw true in
      if is_platform_host host || has_platform_suffix (text.labels host) then none else some host
]

abbrev is_locked_guard : Guard → Bool
is_locked_guard g = is_some g.verification_locked_at

-- `_pair_locked`
abbrev pub pair_locked : List Guard → ℕ → ℕ → Bool
pair_locked guards listing claimant = elim (guard_of guards listing claimant) [
  | none ↦ false
  | some g ↦ is_locked_guard g
]

-- `domain_email_ineligibility`: the reason that comes first, if there is one
unfoldable pub domain_email_ineligibility :
    Text → Bool → List Guard → Listing → Owner → Option ReviewReason
unfolding domain_email_host
domain_email_ineligibility text email_available guards listing claimant =
    elim (domain_email_host text listing) [
      | none ↦ some no_website
      | some host ↦
          let domain = text.domain_part claimant.email in
          if pair_locked guards listing.pk claimant.pk
          then some locked
          else if not email_available
          then some mail_unavailable
          else if str_eq domain "" || not (str_eq (normalize_host text domain false) host)
          then some address_mismatch
          else none
    ]
