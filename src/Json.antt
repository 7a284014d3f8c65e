-- ===== src/Json.antt =====
-- The values that the source types as `Any`: what JSON can carry, but for floats. `equal` is
-- Python's `==` on them, where `True == 1` and a dict compares without regard to order.
use tantra.Prelude.{
  ℕ, String, Bool, true, false, ◌&&◌, Option, none, some, ◌==◌, eqb, if◌then◌else◌,
}

mutual
  pub data Json : Type 0 where
    null : Json
    boolean : Bool → Json
    int : ℕ → Json
    -- `negative n` is -(n + 1)
    negative : ℕ → Json
    text : String → Json
    array : Items → Json
    object : Fields → Json

  pub data Items : Type 0 where
    end : Items
    item : Json → Items → Items

  pub data Fields : Type 0 where
    nil : Fields
    field : String → Json → Fields → Fields

abbrev pub of_bool : Bool → ℕ
of_bool true = 1
of_bool false = 0

abbrev pub is_boolean : Json → Bool
is_boolean (boolean _) = true
is_boolean _ = false

count_fields : Fields → ℕ
count_fields nil = 0
count_fields (field _ _ fs) = Prim.Native.Nat.suc (count_fields fs)

unfoldable pub field_of : Fields → String → Option Json
field_of nil k = none
field_of (field j v fs) k = if j == k then some v else field_of fs k

unfoldable mutual
  unfolding count_fields field_of

  pub equal : Json → Json → Bool
  equal null null = true
  equal (boolean a) (boolean b) = eqb (of_bool a) (of_bool b)
  equal (boolean a) (int n) = eqb (of_bool a) n
  equal (int n) (boolean a) = eqb n (of_bool a)
  equal (int n) (int m) = eqb n m
  equal (negative n) (negative m) = eqb n m
  equal (text s) (text t) = s == t
  equal (array xs) (array ys) = equal_items xs ys
  equal (object fs) (object gs) = eqb (count_fields fs) (count_fields gs) && included fs gs
  equal _ _ = false

  pub equal_items : Items → Items → Bool
  equal_items end end = true
  equal_items (item x xs) (item y ys) = equal x y && equal_items xs ys
  equal_items _ _ = false

  pub included : Fields → Fields → Bool
  included nil gs = true
  included (field k v fs) gs = elim (field_of gs k) [
    | none ↦ false
    | some w ↦ equal v w && included fs gs
  ]
