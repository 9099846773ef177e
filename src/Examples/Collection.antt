-- ===== src/Examples/Collection.antt =====
-- A collection with one document and an index, and calls on it.
use apx_db.Common.{
  ℕ, ◌≤◌, ◌≡◌, refl, true, false, [], ◌∷◌, none, some, codes, text_eq, if◌then◌else◌, arith,
}
use apx_db.Common.Int.{pos}
use apx_db.Common.Outcome.{returned, failed}
use apx_db.Json.{
  Value, number, string, object, member, no_members, find_member, apxdb_json_object_get,
}
use apx_db.Json.Depth.{depth}
use apx_db.Schema.{
  Schema, schema, no_fields, with_field, Field, field, no_schema, byte, enumeration, ordinal,
  by_name,
}
use apx_db.Libc.{strtoll, skip_spaces, skip_digits, read_digits}
use apx_db.Blob.Scalars.{parse_integer_value}
use apx_db.Blob.Size.{compute_field_payload_size, compute_document_blob_size}
use apx_db.Query.Ids.{has_id}
use apx_db.Collection.{Collection, IndexDefinition, by_value, document_ids, find_document_by_id}
use apx_db.Collection.Indexing.{Payloads}
use apx_db.Collection.Store.{Blobs}
use apx_db.Collection.Operations.{delete_stored, put_conforming}
use apx_db.Collection.Sound.{IsSound}
use apx_db.Collection.RoundTrip.{IsPut, put_conforming-IsPut, find_document_by_id-delete_stored}
use apx_db.Collection.Transactions.{
  Transactions, no_transactions, success, is_active, has_active_write_txn, apxdb_begin_write_txn,
}
use apx_db.Collection.Exclusive
use apx_db.Collection.Exclusive.{TransactionReach, TransactionReach-one_active, rollback-commit}
use apx_db.Collection.Validate.{
  validate_json_object, validate_json_value, validate_fields, validate_by_type, validate_scalar,
  validate_enum_field, enum_matches, has_enum_name,
}
use apx_db.Collection.CanStore.{Returns, can_store_all}
use apx_db.Collection.Storable.{compute_document_blob_size-validate_json_object}
use apx_db.Collection.EnumNames.{NoNumbers, compute_field_payload_size-by_name}
use apx_db.Examples.{whole_doubles, whole_stores}

-- {"age": byte}
abbrev age_field : Field
age_field = field (codes "age") byte false no_schema byte no_schema ordinal []

abbrev people : Schema
people = schema (some (codes "people")) (with_field age_field no_fields)

abbrev forty : Value ℕ
forty = object (member (codes "age") (number true (pos 40) 40) no_members)

forty-conforms : validate_json_object (validate_json_value 1) people forty ≡ returned tt
unfolding validate_json_object validate_json_value validate_fields validate_by_type validate_scalar
    apxdb_json_object_get find_member text_eq
forty-conforms = refl

people-can_store : can_store_all people ≡ true
unfolding can_store_all
people-can_store = refl

forty-depth : depth forty ≤ 1
unfolding depth
forty-depth = omega arith

compute_document_blob_size-validate_json_object_example :
    Returns (compute_document_blob_size 1 people forty)
compute_document_blob_size-validate_json_object_example =
    compute_document_blob_size-validate_json_object 1 1 people forty forty-depth people-can_store
      forty-conforms

-- An enum of two names.
abbrev colour_field : Field
colour_field =
    field (codes "colour") enumeration false no_schema byte no_schema by_name
      ((codes "red", pos 0) ∷ (codes "blue", pos 1) ∷ [])

colour-NoNumbers : NoNumbers ℕ ((codes "red", pos 0) ∷ (codes "blue", pos 1) ∷ [])
unfolding parse_integer_value strtoll skip_spaces skip_digits read_digits
colour-NoNumbers = (refl, (refl, tt))

red-conforms : validate_json_value {D = ℕ} 1 colour_field (string (codes "red")) ≡ returned tt
unfolding validate_json_value validate_by_type validate_scalar validate_enum_field enum_matches
    has_enum_name text_eq
red-conforms = refl

compute_field_payload_size-by_name_example :
    compute_field_payload_size {D = ℕ} 1 colour_field (string (codes "red")) ≡ failed
compute_field_payload_size-by_name_example =
    compute_field_payload_size-by_name ℕ 0 1 colour_field (string (codes "red")) refl refl
      colour-NoNumbers refl red-conforms

-- A blob of one byte, whose field is that byte, as text and as number.
abbrev plain_payloads : Payloads ℕ
plain_payloads = record {
  blob_value_to_string = λ f payload. some payload;
  blob_payload_to_double = λ f payload. none;
  get_collection_blob_field_payload = λ c blob name. some (age_field, blob);
  uninitialised = (false, 0);
  zero_double = 0;
}

abbrev plain_blobs : Blobs ℕ
plain_blobs = record {
  payloads = plain_payloads;
  fresh = λ k. 0;
  serialize_document_blob_with_layout = λ l s v. none;
  build_document_json_from_blob = λ c blob. none;
}

abbrev age_index : IndexDefinition
age_index = record {
  field_name = codes "age";
  index_type = by_value;
  composite = false;
  multi_entry = false;
}

-- A collection with one document that stands in an index.
abbrev small_collection : Collection ℕ
small_collection = record {
  collection_schema = people;
  layout = none;
  documents = record { id = codes "doc_1"; json = codes "{\"age\": 40}"; blob = 40 ∷ [] } ∷ [];
  indexes = age_index ∷ [];
  index_data =
      record {
        definition = age_index;
        entries =
            record {
              key = some (40 ∷ []);
              has_numeric_key = false;
              numeric_key = 0;
              doc_ids = codes "doc_1" ∷ [];
            }
            ∷ [];
      }
      ∷ [];
  gpu_column_caches = [];
  dirty = true;
  loaded = true;
}

small_collection-IsSound : IsSound small_collection
unfolding document_ids has_id
small_collection-IsSound = record {
  distinct = (refl, tt);
  indexed = ((((refl, tt), (λ x h. h)), tt), tt);
}

put_conforming-IsPut_example :
    IsPut
      (codes "doc_2")
      (codes "{\"age\": 41}")
      small_collection
      (put_conforming plain_blobs (codes "doc_2") small_collection (codes "{\"age\": 41}"))
put_conforming-IsPut_example =
    put_conforming-IsPut plain_blobs (codes "doc_2") small_collection (codes "{\"age\": 41}")
      small_collection-IsSound

deleted-success : (delete_stored (codes "doc_1") small_collection).0 ≡ success
unfolding delete_stored document_ids has_id text_eq
deleted-success = refl

find_document_by_id-delete_stored_example :
    find_document_by_id (delete_stored (codes "doc_1") small_collection).1.documents (codes "doc_1")
    ≡ (if text_eq (codes "doc_1") (codes "doc_1")
        then none
        else find_document_by_id small_collection.documents (codes "doc_1"))
find_document_by_id-delete_stored_example =
    find_document_by_id-delete_stored (codes "doc_1") (codes "doc_1") small_collection
      small_collection-IsSound deleted-success

-- A transaction that was begun, and the second attempt to begin one.
abbrev one_transaction : Transactions
one_transaction = (apxdb_begin_write_txn true no_transactions).1

one_transaction-TransactionReach : TransactionReach one_transaction
one_transaction-TransactionReach = Exclusive.after Exclusive.at_start (Exclusive.begin true)

abbrev first_handle : ℕ
first_handle = 0

handle-is_active : is_active first_handle one_transaction.live ≡ true
unfolding is_active apxdb_begin_write_txn has_active_write_txn
handle-is_active = refl

TransactionReach-one_active_example :
    (first_handle ≡ first_handle) × (one_transaction.active_transaction ≡ some first_handle)
TransactionReach-one_active_example =
    TransactionReach-one_active first_handle first_handle one_transaction-TransactionReach
      handle-is_active handle-is_active
