-- ===== src/Commands/Schema/Keywords.antt =====
-- crates/apps/nexigon-agent/src/handlers.rs: the keywords of JSON Schema that the expansion of references reads.
use nexigon.Base.{ℕ, List, [], ◌∷◌}

-- $id
abbrev pub dollar_id_key : List ℕ
dollar_id_key = 36 ∷ 105 ∷ 100 ∷ []

-- $schema
abbrev pub dollar_schema_key : List ℕ
dollar_schema_key = 36 ∷ 115 ∷ 99 ∷ 104 ∷ 101 ∷ 109 ∷ 97 ∷ []

-- $ref
abbrev pub dollar_ref_key : List ℕ
dollar_ref_key = 36 ∷ 114 ∷ 101 ∷ 102 ∷ []

-- pattern
abbrev pub pattern_key : List ℕ
pattern_key = 112 ∷ 97 ∷ 116 ∷ 116 ∷ 101 ∷ 114 ∷ 110 ∷ []

-- patternProperties
abbrev pub pattern_properties_key : List ℕ
pattern_properties_key =
    112 ∷ 97 ∷ 116 ∷ 116 ∷ 101 ∷ 114 ∷ 110 ∷ 80 ∷ 114 ∷ 111 ∷ 112 ∷ 101 ∷ 114 ∷ 116 ∷ 105 ∷ 101
    ∷ 115 ∷ []

-- format
abbrev pub format_key : List ℕ
format_key = 102 ∷ 111 ∷ 114 ∷ 109 ∷ 97 ∷ 116 ∷ []

-- additionalItems
abbrev pub additional_items_key : List ℕ
additional_items_key =
    97 ∷ 100 ∷ 100 ∷ 105 ∷ 116 ∷ 105 ∷ 111 ∷ 110 ∷ 97 ∷ 108 ∷ 73 ∷ 116 ∷ 101 ∷ 109 ∷ 115 ∷ []

-- additionalProperties
abbrev pub additional_properties_key : List ℕ
additional_properties_key =
    97 ∷ 100 ∷ 100 ∷ 105 ∷ 116 ∷ 105 ∷ 111 ∷ 110 ∷ 97 ∷ 108 ∷ 80 ∷ 114 ∷ 111 ∷ 112 ∷ 101 ∷ 114 ∷ 116
    ∷ 105 ∷ 101 ∷ 115 ∷ []

-- contains
abbrev pub contains_keyword : List ℕ
contains_keyword = 99 ∷ 111 ∷ 110 ∷ 116 ∷ 97 ∷ 105 ∷ 110 ∷ 115 ∷ []

-- else
abbrev pub else_key : List ℕ
else_key = 101 ∷ 108 ∷ 115 ∷ 101 ∷ []

-- if
abbrev pub if_key : List ℕ
if_key = 105 ∷ 102 ∷ []

-- not
abbrev pub not_key : List ℕ
not_key = 110 ∷ 111 ∷ 116 ∷ []

-- propertyNames
abbrev pub property_names_key : List ℕ
property_names_key = 112 ∷ 114 ∷ 111 ∷ 112 ∷ 101 ∷ 114 ∷ 116 ∷ 121 ∷ 78 ∷ 97 ∷ 109 ∷ 101 ∷ 115 ∷ []

-- then
abbrev pub then_key : List ℕ
then_key = 116 ∷ 104 ∷ 101 ∷ 110 ∷ []

-- items
abbrev pub items_key : List ℕ
items_key = 105 ∷ 116 ∷ 101 ∷ 109 ∷ 115 ∷ []

-- allOf
abbrev pub all_of_key : List ℕ
all_of_key = 97 ∷ 108 ∷ 108 ∷ 79 ∷ 102 ∷ []

-- anyOf
abbrev pub any_of_key : List ℕ
any_of_key = 97 ∷ 110 ∷ 121 ∷ 79 ∷ 102 ∷ []

-- oneOf
abbrev pub one_of_key : List ℕ
one_of_key = 111 ∷ 110 ∷ 101 ∷ 79 ∷ 102 ∷ []

-- $defs
abbrev pub dollar_defs_key : List ℕ
dollar_defs_key = 36 ∷ 100 ∷ 101 ∷ 102 ∷ 115 ∷ []

-- definitions
abbrev pub definitions_key : List ℕ
definitions_key = 100 ∷ 101 ∷ 102 ∷ 105 ∷ 110 ∷ 105 ∷ 116 ∷ 105 ∷ 111 ∷ 110 ∷ 115 ∷ []

-- properties
abbrev pub properties_key : List ℕ
properties_key = 112 ∷ 114 ∷ 111 ∷ 112 ∷ 101 ∷ 114 ∷ 116 ∷ 105 ∷ 101 ∷ 115 ∷ []

-- dependencies
abbrev pub dependencies_key : List ℕ
dependencies_key = 100 ∷ 101 ∷ 112 ∷ 101 ∷ 110 ∷ 100 ∷ 101 ∷ 110 ∷ 99 ∷ 105 ∷ 101 ∷ 115 ∷ []

-- http://json-schema.org/draft-07/schema#
abbrev pub draft7_http : List ℕ
draft7_http =
    104 ∷ 116 ∷ 116 ∷ 112 ∷ 58 ∷ 47 ∷ 47 ∷ 106 ∷ 115 ∷ 111 ∷ 110 ∷ 45 ∷ 115 ∷ 99 ∷ 104 ∷ 101 ∷ 109
    ∷ 97 ∷ 46 ∷ 111 ∷ 114 ∷ 103 ∷ 47 ∷ 100 ∷ 114 ∷ 97 ∷ 102 ∷ 116 ∷ 45 ∷ 48 ∷ 55 ∷ 47 ∷ 115 ∷ 99
    ∷ 104 ∷ 101 ∷ 109 ∷ 97 ∷ 35 ∷ []

-- https://json-schema.org/draft-07/schema
abbrev pub draft7_https : List ℕ
draft7_https =
    104 ∷ 116 ∷ 116 ∷ 112 ∷ 115 ∷ 58 ∷ 47 ∷ 47 ∷ 106 ∷ 115 ∷ 111 ∷ 110 ∷ 45 ∷ 115 ∷ 99 ∷ 104 ∷ 101
    ∷ 109 ∷ 97 ∷ 46 ∷ 111 ∷ 114 ∷ 103 ∷ 47 ∷ 100 ∷ 114 ∷ 97 ∷ 102 ∷ 116 ∷ 45 ∷ 48 ∷ 55 ∷ 47 ∷ 115
    ∷ 99 ∷ 104 ∷ 101 ∷ 109 ∷ 97 ∷ []

-- regex
abbrev pub regex_format : List ℕ
regex_format = 114 ∷ 101 ∷ 103 ∷ 101 ∷ 120 ∷ []

-- The keywords whose value is one schema, a list of schemas, or an object of schemas.
abbrev pub single_keywords : List (List ℕ)
single_keywords =
    additional_items_key ∷ additional_properties_key ∷ contains_keyword ∷ else_key ∷ if_key
    ∷ not_key ∷ property_names_key ∷ then_key ∷ []

abbrev pub list_keywords : List (List ℕ)
list_keywords = all_of_key ∷ any_of_key ∷ one_of_key ∷ []

abbrev pub object_keywords : List (List ℕ)
object_keywords = dollar_defs_key ∷ definitions_key ∷ pattern_properties_key ∷ properties_key ∷ []
