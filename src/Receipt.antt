-- ===== src/Receipt.antt =====
-- internal/receipt: the document model, its Validate methods and the resolved copy count.
pub mod Validate
pub mod Decides
pub mod WellFormed
pub mod Accepts
pub mod Runs
use receiptd.Base.{ℕ, Bool, List, Option, ltb, if◌then◌else◌}
use receiptd.Base.Int.{ℤ, pos, ltb_ℤ}
use receiptd.Base.Text.{Text}
use native.Mathlib.Decide.{ℕ_discrete}

pub record TextElement : Type 0 where
  pub content : Text
  pub align : Text
  pub bold : Bool
  pub italic : Bool
  pub underline : Bool
  pub strikethrough : Bool
  pub size : ℤ

pub record Divider : Type 0 where
  pub style : Text
  pub size : ℤ

pub record Asset : Type 0 where
  pub name : Text
  pub width : ℤ
  pub align : Text

pub record QrCode : Type 0 where
  pub content : Text
  pub size : ℤ
  pub error_correction : Text

pub record Barcode : Type 0 where
  pub content : Text
  pub symbology : Text
  pub height : ℤ
  pub show_text : Bool

pub record Table : Type 0 where
  pub headers : List Text
  pub rows : List (List Text)

pub record ListItem : Type 0 where
  pub content : Text
  pub checked : Bool
  pub indent : ℤ

pub record ListElement : Type 0 where
  pub kind : Text
  pub items : List ListItem

-- receipt.Element. `nil_element` is a nil interface value; a column whose Elements is a nil slice
-- is `column_nil`, since reflect.DeepEqual tells that from an empty slice.
mutual
  pub data Element : Type 0 where
    nil_element : Element
    text : TextElement → Element
    heading : Text → Element
    divider : Divider → Element
    spacer : ℤ → Element
    image : List ℕ → Element
    asset : Asset → Element
    qr_code : QrCode → Element
    barcode : Barcode → Element
    columns : Columns → Element
    table : Table → Element
    list : ListElement → Element
    feed : ℤ → Element
    cut : Text → Element

  pub data Elements : Type 0 where
    nil : Elements
    cons : Element → Elements → Elements

  pub data Columns : Type 0 where
    no_columns : Columns
    column : ℤ → Elements → Columns → Columns
    column_nil : ℤ → Columns → Columns

-- `elements` is `none` for a nil slice.
pub record Receipt : Type 0 where
  pub version : ℤ
  pub copies : ℤ
  pub elements : Option Elements

-- reflect.DeepEqual on receipts.
unfoldable pub Receipt-discrete : Discrete Receipt
Receipt-discrete = hlevel ℕ_discrete

abbrev pub max_copies : ℕ
max_copies = 100

unfoldable pub effective_copies : Receipt → ℤ
effective_copies r =
    if ltb_ℤ r.copies (pos 1)
    then pos 1
    else if ltb_ℤ (pos max_copies) r.copies
    then pos max_copies
    else r.copies
