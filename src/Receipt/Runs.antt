-- ===== src/Receipt/Runs.antt =====
-- Concrete receipts of internal/receipt, and its theorems at them.
use receiptd.Base.{ℕ, ◌≡◌, ◌↔◌, refl, true, false, none, some, length}
use receiptd.Base.Int.{pos, negsuc}
use receiptd.Base.Text.{codes, text_eq}
use receiptd.Apperr.{Kind, GoError, ok, is_kind}
use receiptd.Receipt.{Receipt, Element, nil, cons, effective_copies}
use receiptd.Receipt.Validate.{Codecs, Pixel, validate, invalid_elements}
use receiptd.Receipt.Decides.{InRange}
use receiptd.Receipt.Accepts.{
  ReceiptIsValid, validate-ReceiptIsValid, is_kind-validate, effective_copies-validate,
  effective_copies-InRange,
}

abbrev black : Pixel
black = record { red = 0; green = 0; blue = 0; alpha = 65535 }

-- Encoders that accept everything; a code is the length of its content.
abbrev pub lenient : Codecs
lenient = record {
  Code = ℕ;
  qr_encode = λ c level. ok (length c);
  code128 = λ c. ok (length c);
  ean = λ c. ok (length c);
  code39 = λ c checksum full. ok (length c);
  two_of_five = λ c interleaved. ok (length c);
  picture = λ code. record { width = code; height = 1; at = λ x y. black };
  decode_config = λ bytes. ok (record { width = length bytes; height = 1; format = codes "png" });
  decode = λ bytes. ok (record { width = length bytes; height = 1; at = λ x y. black });
}

abbrev pub hello : Element
hello = Element.text (record {
  content = codes "hello";
  align = codes "center";
  bold = true;
  italic = false;
  underline = false;
  strikethrough = false;
  size = pos 2;
})

abbrev pub slip : Receipt
slip = record {
  version = pos 1;
  copies = pos 2;
  elements = some (cons hello (cons (Element.feed (pos 3)) (cons (Element.cut (codes "")) nil)));
}

abbrev negative : Receipt
negative = record {
  version = pos 1;
  copies = negsuc 0;
  elements = some (cons Element.nil_element nil);
}

pub slip_accepted : validate lenient slip ≡ none
unfolding validate invalid_elements text_eq
slip_accepted = refl

validate-ReceiptIsValid_example : (validate lenient slip ≡ none) ↔ ReceiptIsValid lenient slip
validate-ReceiptIsValid_example = validate-ReceiptIsValid lenient slip

effective_copies-validate_example : effective_copies slip ≡ pos 2
effective_copies-validate_example = effective_copies-validate lenient slip slip_accepted

effective_copies-InRange_example : InRange 1 100 (effective_copies negative)
effective_copies-InRange_example = effective_copies-InRange negative

negative_error : (e : GoError) × (validate lenient negative ≡ some e)
unfolding validate invalid_elements
negative_error = (_, refl)

is_kind-validate_example : is_kind negative_error.0 Kind.validation ≡ true
is_kind-validate_example = is_kind-validate lenient negative negative_error.0 negative_error.1
