-- ===== src/Node/Rewritten.antt =====
-- Which lines `rewriteProps` of internal/node/identity.go changes, and into what.
use droidpool.Prelude.{
  ℕ, ◌≡◌, refl, subst, false, List, [], ◌∷◌, ◌++◌, some, arith, map, All, ◌==◌, Text, codes, inl,
  inr, Option-cases,
}
use droidpool.Prelude.Strings.{
  split, split_by, join, trim_right_by, Lacks, split-join, split_by-append, split_by-Lacks,
}
use droidpool.Pool.Identity.{Identity}
use droidpool.Manager.Index.{strip_prefix}
use droidpool.Api.Urls.{cut, has_prefix}
use droidpool.Api.Masked.{cut-byte}
use droidpool.Node.Props.{rewrite_line, rewrite_props, identity_key}

-- `ro.product.<partition>.<key>`
abbrev pub product_key : Text → Text → Text
product_key partition key = codes "ro.product." ++ (partition ++ b'.' ∷ key)

abbrev pub prop : Text → Text → Text → Text
prop partition key value = product_key partition key ++ b'=' ∷ value

product_key-parts :
    (partition key : Text)
    → Lacks b'.' partition
    → Lacks b'.' key
    → split b'.' (product_key partition key) ≡ codes "ro" ∷ codes "product" ∷ partition ∷ key ∷ []
unfolding split_by
product_key-parts partition key hp hk =
    rw (split_by-append b'.' partition key hp, split_by-Lacks b'.' key hk) refl

Lacks-dotted : (s t : Text) → Lacks b'=' s → Lacks b'=' t → Lacks b'=' (s ++ b'.' ∷ t)
Lacks-dotted [] t hs ht = ht
Lacks-dotted (c ∷ s) t hs ht = ground (arith, Lacks-dotted s t)

Lacks-product_key :
    (partition key : Text)
    → Lacks b'=' partition
    → Lacks b'=' key
    → Lacks b'=' (product_key partition key)
Lacks-product_key partition key hp hk = Lacks-dotted partition key hp hk

rewrite_line-key :
    (id : Identity) (partition key value : Text) (get : Identity → Text)
    → identity_key key ≡ some get
    → Lacks b'.' partition
    → Lacks b'=' partition
    → Lacks b'.' key
    → Lacks b'=' key
    → rewrite_line id (prop partition key value) ≡ prop partition key (get id)
unfolding rewrite_line
rewrite_line-key id partition key value get known hp he kp ke =
    rw
      (
        cut-byte b'=' (product_key partition key) value (Lacks-product_key partition key he ke),
        product_key-parts partition key hp kp,
        known,
      )
      refl

cut-whole :
    (b : ℕ) (s front back : Text) → cut (b ∷ []) s ≡ some (front, back) → s ≡ front ++ b ∷ back
unfolding cut strip_prefix
cut-whole b [] front back h = cc
cut-whole b (c ∷ s) front back h = elim (Option-cases (cut (b ∷ []) s)) [
  | inl gone ↦ ground (arith, gone)
  | inr ((f, r), found) ↦ ground (arith, found, cut-whole b s f r found)
]

prefix-append : (p s t : Text) → has_prefix p (s ++ t) ≡ false → has_prefix p s ≡ false
unfolding strip_prefix
prefix-append [] s t h = h
prefix-append (c ∷ p) [] t h = refl
prefix-append (c ∷ p) (d ∷ s) t h = ground (arith, prefix-append p s t)

rewrite_line-other :
    (id : Identity) (line : Text)
    → has_prefix (codes "ro.product.") line ≡ false
    → rewrite_line id line ≡ line
unfolding rewrite_line
rewrite_line-other id line h = elim (Option-cases (cut (codes "=") line)) [
  | inl no_key ↦ rw no_key refl
  | inr ((key, value), found) ↦
      let other = prefix-append (codes "ro.product.") key (b'=' ∷ value) (
        subst (λ l. has_prefix (codes "ro.product.") l ≡ false)
          (cut-whole b'=' line key value found) h) in
      rw (found, other) refl
]

-- In a property file, the lines for the model, brand, manufacturer, device and name of a partition
-- whose name has neither a dot nor = in it get the values of the identity, and a line that does
-- not start with ro.product. stays as it is.
pub rewrite_line-Sets :
    (id : Identity) (partition value line : Text)
    → Lacks b'.' partition
    → Lacks b'=' partition
    → has_prefix (codes "ro.product.") line ≡ false
    → (rewrite_line id (prop partition (codes "model") value)
        ≡ prop partition (codes "model") id.model)
      × (rewrite_line id (prop partition (codes "brand") value)
          ≡ prop partition (codes "brand") id.brand)
      × (rewrite_line id (prop partition (codes "manufacturer") value)
          ≡ prop partition (codes "manufacturer") id.manufacturer)
      × (rewrite_line id (prop partition (codes "device") value)
          ≡ prop partition (codes "device") id.device)
      × (rewrite_line id (prop partition (codes "name") value)
          ≡ prop partition (codes "name") id.name)
      × (rewrite_line id line ≡ line)
unfolding identity_key
rewrite_line-Sets id partition value line hp he other = (
  rewrite_line-key id partition (codes "model") value (λ i. i.model) refl hp he refl refl,
  rewrite_line-key id partition (codes "brand") value (λ i. i.brand) refl hp he refl refl,
  rewrite_line-key id partition (codes "manufacturer") value (λ i. i.manufacturer) refl hp he refl
      refl,
  rewrite_line-key id partition (codes "device") value (λ i. i.device) refl hp he refl refl,
  rewrite_line-key id partition (codes "name") value (λ i. i.name) refl hp he refl refl,
  rewrite_line-other id line other,
)

trim-newline :
    (s : Text) → trim_right_by (λ c. c == 10) (s ++ 10 ∷ []) ≡ trim_right_by (λ c. c == 10) s
unfolding trim_right_by
trim-newline [] = refl
trim-newline (c ∷ s) = rw (trim-newline s) refl

-- A property file that ends in one newline is rewritten line by line, and the result ends in one
-- newline.
pub rewrite_props-lines :
    (id : Identity) (line : Text) (lines : List Text)
    → All (Lacks 10) (line ∷ lines)
    → trim_right_by (λ c. c == 10) (join 10 (line ∷ lines)) ≡ join 10 (line ∷ lines)
    → rewrite_props (join 10 (line ∷ lines) ++ 10 ∷ []) id
      ≡ join 10 (map (rewrite_line id) (line ∷ lines)) ++ 10 ∷ []
unfolding rewrite_props
rewrite_props-lines id line lines h full =
    rw (trim-newline (join 10 (line ∷ lines)), full, split-join 10 line lines h) refl
