-- ===== src/Compat/Known.antt =====
-- What the attributes of two parts must be for `_unknown` of src/services/compatibility_engine.py to
-- have nothing to say of them.
use pc_builder.Shared.{
  ℕ, ◌≡◌, refl, ◌≢◌, inl, inr, true, false, Option, none, some, [], arith, nat_eq, option_eq,
  Option-cases, is_some, str_eq, mem_str, upper, strip,
}
use pc_builder.Compat.Fields.{Value, text, integer, decimal, show_value}
use pc_builder.Compat.Rules.{Rule, Op, contains_in, form_factor_fits}
use pc_builder.Compat.FormFactor.{form_factor_index}
use pc_builder.Compat.Sockets.{current_sockets}
use pc_builder.Compat.View.{View}
use pc_builder.Compat.Check.{fits_anyway, unknown, placed, is_blank}

-- A text with something in it, or a number.
abbrev pub NotBlank : Value → Type 0
NotBlank (text s) = strip s ≢ []
NotBlank (integer n) = Unit
NotBlank (decimal h) = Unit

-- no value, or a text of spaces
abbrev pub IsMissing : Option Value → Type 0
IsMissing none = Unit
IsMissing (some (text s)) = strip s ≡ []
IsMissing (some (integer n)) = ⊥
IsMissing (some (decimal h)) = ⊥

-- An attribute is known: it has a value, not a blank one, and a form factor has a place on the scale.
pub record IsKnown (q : Rule) (attribute : Option Value) (v : Value) : Type 0 where
  pub there : attribute ≡ some v
  pub not_blank : NotBlank v
  pub on_scale : q.op ≡ form_factor_fits → (i : ℕ) × (form_factor_index (show_value v) ≡ some i)

-- A cooler that lists no sockets, beside a CPU whose socket is known and current.
pub record FitsAnyway (q : Rule) (a b : View) : Type 0 where
  pub sockets_rule : q.op ≡ contains_in
  pub socket : Value
  pub socket_known : IsKnown q (a.attr q.field_a) socket
  pub current : mem_str (upper (strip (show_value socket))) current_sockets ≡ true
  pub none_listed : IsMissing (b.attr q.field_b)

is_blank-NotBlank : (v : Value) → is_blank v ≡ false → NotBlank v
is_blank-NotBlank (text s) h = λ e. ground (arith, h, e)
is_blank-NotBlank (integer n) h = tt
is_blank-NotBlank (decimal k) h = tt

on_scale_lem :
    (op : Op) (v : Value)
    → placed op v ≡ true
    → op ≡ form_factor_fits
    → (i : ℕ) × (form_factor_index (show_value v) ≡ some i)
unfolding placed
on_scale_lem op v h e = elim (Option-cases (form_factor_index (show_value v))) [
  | inl n ↦ absurd (ground (arith, rw e at h, n))
  | inr p ↦ p
]

-- a value that is not unknown is known
pub known : (q : Rule) (x : Option Value) → unknown q x ≡ none → (v : Value) × IsKnown q x v
unfolding unknown
known q none h = absurd (ground arith)
known q (some v) h = (
  v,
  record {
    there = refl;
    not_blank = is_blank-NotBlank v (ground arith);
    on_scale = on_scale_lem q.op v (ground arith);
  },
)

-- outside the form factors, only a missing value is unknown
unknown-IsMissing :
    (q : Rule) (x : Option Value) → q.op ≡ contains_in → is_some (unknown q x) ≡ true → IsMissing x
unfolding unknown placed
unknown-IsMissing q none e h = tt
unknown-IsMissing q (some (text s)) e h = ground (arith, rw e at h)
unknown-IsMissing q (some (integer n)) e h = absurd (ground (arith, rw e at h))
unknown-IsMissing q (some (decimal n)) e h = absurd (ground (arith, rw e at h))

pub fits_anyway-FitsAnyway :
    (q : Rule) (a b : View)
    → fits_anyway q (a.attr q.field_a) (unknown q (a.attr q.field_a)) (unknown q (b.attr q.field_b))
      ≡ true
    → FitsAnyway q a b
unfolding fits_anyway
fits_anyway-FitsAnyway q a b h =
    let (v, k) = known q (a.attr q.field_a) (ground arith) in
    let op : q.op ≡ contains_in = ground arith in
    record {
      sockets_rule = op;
      socket = v;
      socket_known = k;
      current = ground (arith, k.there);
      none_listed = unknown-IsMissing q (b.attr q.field_b) op (ground arith);
    }
