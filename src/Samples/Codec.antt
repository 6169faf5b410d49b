-- ===== src/Samples/Codec.antt =====
-- A cipher to run the vaults on: bytes are characters, sealing changes nothing, and the JSON text of an
-- envelope is its keys and values one after another, each character marked.
use Prim.Native.Char.{Char, code}
use Prim.Native.String.{count}
use Prim.Native.String.count as count_laws
use deep_agent_blueprint.Prelude.{
  ℕ, zero, suc, String, ◌≡◌, refl, ap, Bool, true, false, none, some, List, [], ◌∷◌, ◌==◌, eqb,
  if◌then◌else◌, length, ◌⊎◌, inl, inr, sym,
}
use deep_agent_blueprint.Json.{Json, str, num, obj, Fields, end, field}
use deep_agent_blueprint.Json.Laws.{FieldsUnique}
use deep_agent_blueprint.TokenVault.{Crypto}
use deep_agent_blueprint.TokenVault.RoundTrip.{IsFlat, IsCipher}

-- one mark for each unit
tally : ℕ → String
tally zero = ""
tally (suc n) = String.◌∷◌ "i" (tally n)

count-tally : (n : ℕ) → count (tally n) ≡ n
unfolding tally
count-tally zero = count_laws.nil
count-tally (suc n) = rw (count_laws.cons, count-tally n)

sign : Bool → String
sign true = "-"
sign false = "+"

-- key, kind and two texts for each field
parts : Fields → List String
unfolding sign tally
parts end = []
parts (field k (str t) fs) = k ∷ "s" ∷ t ∷ "" ∷ parts fs
parts (field k (num n) fs) = k ∷ sign n.negative ∷ tally n.mantissa ∷ tally n.scale ∷ parts fs
parts (field k v fs) = parts fs

value : String → String → String → Json
value kind a b =
    if kind == "s"
    then str a
    else num (record { negative = kind == "-"; mantissa = count a; scale = count b })

unfoldable pub fields : List String → Fields
unfolding value
fields (k ∷ kind ∷ a ∷ b ∷ rest) = field k (value kind a b) (fields rest)
fields _ = end

number :
    (b : Bool) (m e : ℕ)
    → value (sign b) (tally m) (tally e) ≡ num (record { negative = b; mantissa = m; scale = e })
unfolding value sign
number true m e = rw (count-tally m, count-tally e)
number false m e = rw (count-tally m, count-tally e)

fields-parts : (fs : Fields) → IsFlat fs → fields (parts fs) ≡ fs
unfolding fields parts
fields-parts end f = refl
fields-parts (field k (str t) fs) f = rw (fields-parts fs f)
fields-parts (field k (num n) fs) f = rw (number n.negative n.mantissa n.scale, fields-parts fs f)
fields-parts (field k v fs) f = elim f [ ]

-- each character marked, and the end of the text
mark : String → String → String
mark String.[] rest = String.◌∷◌ "e" rest
mark (String.◌∷◌ c s) rest = String.◌∷◌ "c" (String.◌∷◌ c (mark s rest))

join : List String → String
unfolding mark
join [] = ""
join (t ∷ ts) = mark t (join ts)

in_front : Char → List String → List String
in_front c [] = []
in_front c (t ∷ ts) = String.◌∷◌ c t ∷ ts

unfoldable pub split : String → List String
unfolding in_front
split String.[] = []
split (String.◌∷◌ c String.[]) = "" ∷ []
split (String.◌∷◌ c (String.◌∷◌ e s)) =
    let at_end = split (String.◌∷◌ e s) in
    let inside = split s in if eqb (code c) b'e' then "" ∷ at_end else in_front e inside

split-mark : (t rest : String) → split (mark t rest) ≡ t ∷ split rest
unfolding split mark
split-mark String.[] String.[] = refl
split-mark String.[] (String.◌∷◌ c rest) = refl
split-mark (String.◌∷◌ c t) rest = rw (split-mark t rest)

split-join : (ts : List String) → split (join ts) ≡ ts
unfolding join
split-join [] = unfold split in refl
split-join (t ∷ ts) = rw (split-mark t (join ts), split-join ts)

unfoldable pub to_list : String → List Char
to_list String.[] = []
to_list (String.◌∷◌ c s) = c ∷ to_list s

unfoldable pub of_list : List Char → String
of_list [] = ""
of_list (c ∷ cs) = String.◌∷◌ c (of_list cs)

to_list-of_list : (l : List Char) → to_list (of_list l) ≡ l
unfolding to_list of_list
to_list-of_list [] = refl
to_list-of_list (c ∷ l) = rw (to_list-of_list l)

of_list-to_list : (s : String) → of_list (to_list s) ≡ s
unfolding to_list of_list
of_list-to_list String.[] = refl
of_list-to_list (String.◌∷◌ c s) = rw (of_list-to_list s)

unfoldable pub random : ℕ → List Char
random zero = []
random (suc n) = "r" ∷ random n

length-random : (n : ℕ) → length (random n) ≡ n
unfolding random
length-random zero = refl
length-random (suc n) = rw (length-random n)

unfoldable pub text_of_json : Json → String
unfolding join parts
text_of_json (obj fs) = join (parts fs)
text_of_json v = ""

-- Key Vault is on where its state is `true`.
abbrev pub codec : Crypto
codec = record {
  Byte = Char;
  Service = Bool;
  urandom = λ n i. random n;
  seal = λ key nonce plain. plain;
  unseal = λ key nonce sealed. some sealed;
  utf8_encode = to_list;
  utf8_decode = λ b. some (of_list b);
  b64encode = of_list;
  b64decode = λ t. some (to_list t);
  dumps = text_of_json;
  loads = λ t. some (obj (fields (split t)));
  wrap_key = λ k dek on. (if on then some dek else none, on);
  unwrap_key = λ k wrapped on. if on then some wrapped else none;
}

read_back :
    (fs : Fields) → FieldsUnique fs → IsFlat fs → codec.loads (codec.dumps (obj fs)) ≡ some (obj fs)
unfolding text_of_json
read_back fs u f = rw (split-join (parts fs), fields-parts fs f)

unwrapped :
    (dek wrapped : List Char) (on on' : Bool)
    → (if on then some dek else none) ≡ some wrapped
    → ((if on' then some wrapped else none) ≡ some dek)
      ⊎ ((if on' then some wrapped else none) ≡ none)
unwrapped dek wrapped true true h = inl (sym h)
unwrapped dek wrapped on false h = inr refl
unwrapped dek wrapped false true h = cc

pub codec-IsCipher : IsCipher codec
codec-IsCipher = record {
  urandom_length = λ n i. length-random n;
  unseal-seal = λ key nonce plain. refl;
  utf8_roundtrip = λ t. ap some (of_list-to_list t);
  b64_roundtrip = λ b. ap some (to_list-of_list b);
  json_roundtrip = read_back;
  unwrap-wrap = λ k dek wrapped on on' h. unwrapped dek wrapped on on' h;
}
