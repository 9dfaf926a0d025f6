-- ===== src/TypeUtil/Values.antt =====
-- protocol/dubbo/utils/typeutil.go: values of calls as texts of REST, and back. encoding/json and
-- net/url are parameters.
use mesher.Prelude.{
  ℕ, zero, suc, false, ◌+◌, ◌*◌, List, [], ◌∷◌, ◌++◌, ◌⊎◌, inl, inr, if◌then◌else◌, Bool, ◌||◌,
}
use mesher.Prelude.Text.{Text, codes, text_eq}
use mesher.Prelude.Go.{Go, ret, panic, ◌>>=◌}
use mesher.Wire.Object.{
  Object, nil, text, blob, array, int16, int32, int64, float32, float64, Objects, end, item,
}

abbrev pub java_string : Text
java_string = codes "Ljava/lang/String;"

abbrev pub java_char : Text
java_char = codes "Ljava/lang/Character;"

abbrev pub java_byte : Text
java_byte = codes "Ljava/lang/Byte;"

abbrev pub java_short : Text
java_short = codes "Ljava/lang/Short;"

abbrev pub java_integer : Text
java_integer = codes "Ljava/lang/Integer;"

abbrev pub java_long : Text
java_long = codes "Ljava/lang/Long;"

abbrev pub java_float : Text
java_float = codes "Ljava/lang/Float;"

abbrev pub java_double : Text
java_double = codes "Ljava/lang/Double;"

abbrev pub java_boolean : Text
java_boolean = codes "Ljava/lang/Boolean;"

abbrev pub java_array : Text
java_array = codes "Ljava.util.Arrays;"

abbrev pub java_object : Text
java_object = codes "Ljava/lang/Object;"

abbrev pub schema_string : Text
schema_string = codes "string"

abbrev pub schema_array : Text
schema_array = codes "array"

abbrev pub schema_object : Text
schema_object = codes "object"

-- The assertion `v.(string)`
unfoldable pub as_string : Object → Go Text
as_string (text s) = ret s
as_string v = panic

module _ (query_escape : Text → Text) where
  unfoldable pub query_pair : Text → Text → Text
  query_pair key value = key ++ (codes "=" ++ query_escape value)

  unfoldable pub more_pairs : Text → Text → Objects → Go Text
  unfolding query_pair as_string
  more_pairs key acc end = ret acc
  more_pairs key acc (item v vs) = do
    s ← as_string v
    more_pairs key (acc ++ (codes "&" ++ query_pair key s)) vs

  -- `ArrayToQueryString`: the value is a list of strings.
  unfoldable pub array_to_query_string : Text → Object → Go Text
  unfolding more_pairs query_pair as_string
  array_to_query_string key (array end) = ret []
  array_to_query_string key (array (item v vs)) = do
    s ← as_string v
    more_pairs key (query_pair key s) vs
  array_to_query_string key v = panic

abbrev pub one_of : Text → List Text → Bool
one_of s [] = false
one_of s (t ∷ ts) = text_eq s t || one_of s ts

-- The cases of ObjectToString that assert a string, and the one that has no statement.
abbrev pub string_types : List Text
string_types =
    java_string ∷ schema_string ∷ java_byte ∷ java_short ∷ java_integer ∷ java_long ∷ java_float
    ∷ java_double ∷ java_boolean ∷ []

abbrev pub unsupported_type : Text
unsupported_type = codes "Unsurported Type"

abbrev typed_string : (Object → Text) → Text → Object → Go (Text ⊎ Text)
typed_string marshal dtype v =
    let as_text = as_string v >>= λ s. ret (inr s) in
    if one_of dtype string_types
    then as_text
    else (if text_eq dtype java_char
        then ret (inl unsupported_type)
        else (if one_of dtype (java_array ∷ schema_array ∷ [])
            then ret (inr [])
            else ret (inr (marshal v))))

-- `ObjectToString`: the message of an error, or the text.
unfoldable pub object_to_string : (Object → Text) → Text → Object → Go (Text ⊎ Text)
unfolding as_string
object_to_string marshal dtype nil = ret (inr [])
object_to_string marshal dtype v = typed_string marshal dtype v

-- `binary.BigEndian.Uint16` and `Uint32`, `binary.LittleEndian.Uint32` and `Uint64`
unfoldable pub big_endian : ℕ → ℕ → List ℕ → Go ℕ
big_endian zero acc b = ret acc
big_endian (suc n) acc [] = panic
big_endian (suc n) acc (x ∷ b) = big_endian n (acc * 256 + x) b

unfoldable pub little_endian : ℕ → List ℕ → Go ℕ
little_endian zero b = ret 0
little_endian (suc n) [] = panic
little_endian (suc n) (x ∷ b) = do rest ← little_endian n b; ret (x + 256 * rest)

abbrev number : (ℕ → Object) → Go ℕ → Go (Text ⊎ Object)
number kind g = g >>= λ n. ret (inr (kind n))

-- `RestByteToValue`: the message of an error, or the value. A long is read from four bytes.
unfoldable pub rest_byte_to_value : (List ℕ → Text ⊎ Object) → Text → List ℕ → Go (Text ⊎ Object)
unfolding big_endian little_endian
rest_byte_to_value unmarshal j_type value =
    if one_of j_type (java_string ∷ schema_string ∷ [])
    then ret (inr (text value))
    else (if text_eq j_type java_char
        then ret (inr nil)
        else (if text_eq j_type java_byte
            then ret (inr (blob value))
            else (if text_eq j_type java_short
                then number int16 (big_endian 2 0 value)
                else (if text_eq j_type java_integer
                    then number int32 (big_endian 4 0 value)
                    else (if text_eq j_type java_long
                        then number int64 (big_endian 4 0 value)
                        else (if text_eq j_type java_float
                            then number float32 (little_endian 4 value)
                            else (if text_eq j_type java_double
                                then number float64 (little_endian 8 value)
                                else (if text_eq j_type java_boolean
                                    then ret (inl (codes "Not supported"))
                                    else (if one_of j_type (java_array ∷ schema_array ∷ [])
                                        then ret (inl (codes "Not supported "))
                                        else (if one_of j_type (java_object ∷ schema_object ∷ [])
                                            then ret (unmarshal value)
                                            else ret (inl (codes "Invalid type"))))))))))))

abbrev onto : Object → Text ⊎ Objects → Text ⊎ Objects
onto v (inl message) = inl message
onto v (inr vs) = inr (item v vs)

abbrev appended : Text ⊎ Object → Go (Text ⊎ Objects) → Go (Text ⊎ Objects)
appended (inl message) rest = ret (inl message)
appended (inr v) rest = rest >>= λ r. ret (onto v r)

-- `RestBytesToLstValue`
unfoldable pub rest_bytes_to_lst_value :
    (List ℕ → Text ⊎ Object) → Text → List (List ℕ) → Go (Text ⊎ Objects)
unfolding rest_byte_to_value
rest_bytes_to_lst_value unmarshal j_type [] = ret (inr end)
rest_bytes_to_lst_value unmarshal j_type (b ∷ bs) = do
  v ← rest_byte_to_value unmarshal j_type b
  appended v (rest_bytes_to_lst_value unmarshal j_type bs)
