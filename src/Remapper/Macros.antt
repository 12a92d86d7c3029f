-- ===== src/Remapper/Macros.antt =====
-- src/query_remapper_function.go: the macros that stand in DuckDB for functions of Postgres, and
-- their names.
use bemi_db.Prelude.{◌≡◌, refl, String, ◌<>◌, List, [], ◌∷◌}
use bemi_db.Remapper.Names.{extract_macro_names}

abbrev pub pg_version : String
pg_version = "17.0"

unfoldable pub create_pg_catalog_macro_queries : List String
create_pg_catalog_macro_queries =
    "CREATE MACRO aclexplode(aclitem_array) AS json(aclitem_array)"
    ∷ "CREATE MACRO current_setting(setting_name) AS '', (setting_name, missing_ok) AS ''"
    ∷ "CREATE MACRO pg_backend_pid() AS 0"
    ∷ "CREATE MACRO pg_encoding_to_char(encoding_int) AS 'UTF8'"
    ∷ "CREATE MACRO pg_get_expr(pg_node_tree, relation_oid) AS pg_catalog.pg_get_expr(pg_node_tree, relation_oid), (pg_node_tree, relation_oid, pretty_bool) AS pg_catalog.pg_get_expr(pg_node_tree, relation_oid)"
    ∷ "CREATE MACRO pg_get_function_identity_arguments(func_oid) AS ''"
    ∷ "CREATE MACRO pg_get_indexdef(index_oid) AS '', (index_oid, column_int) AS '', (index_oid, column_int, pretty_bool) AS ''"
    ∷ "CREATE MACRO pg_get_partkeydef(table_oid) AS ''"
    ∷ "CREATE MACRO pg_get_userbyid(role_id) AS 'bemidb'"
    ∷ "CREATE MACRO pg_get_viewdef(view_oid) AS pg_catalog.pg_get_viewdef(view_oid), (view_oid, pretty_bool) AS pg_catalog.pg_get_viewdef(view_oid)"
    ∷ "CREATE MACRO pg_indexes_size(regclass) AS 0"
    ∷ "CREATE MACRO pg_is_in_recovery() AS false"
    ∷ "CREATE MACRO pg_table_size(regclass) AS 0"
    ∷ "CREATE MACRO pg_tablespace_location(tablespace_oid) AS ''"
    ∷ "CREATE MACRO pg_total_relation_size(regclass) AS 0"
    ∷ "CREATE MACRO quote_ident(text) AS '\"' || text || '\"'"
    ∷ "CREATE MACRO row_to_json(record) AS to_json(record), (record, pretty_bool) AS to_json(record)"
    ∷ "CREATE MACRO set_config(setting_name, new_value, is_local) AS new_value"
    ∷ ("CREATE MACRO version() AS 'PostgreSQL " <> (pg_version <> ", compiled by BemiDB'"))
    ∷ "CREATE MACRO pg_get_statisticsobjdef_columns(oid) AS NULL"
    ∷ "CREATE MACRO pg_relation_is_publishable(val) AS NULL"
    ∷ "CREATE MACRO json_build_object(k1, v1) AS json_object(k1, v1),\n\t\t\t(k1, v1, k2, v2) AS json_object(k1, v1, k2, v2),\n\t\t\t(k1, v1, k2, v2, k3, v3) AS json_object(k1, v1, k2, v2, k3, v3),\n\t\t\t(k1, v1, k2, v2, k3, v3, k4, v4) AS json_object(k1, v1, k2, v2, k3, v3, k4, v4)"
    ∷ "CREATE MACRO array_upper(arr, dimension) AS\n\t\t\tCASE dimension\n\t\t\tWHEN 1 THEN len(arr)\n\t\t\tELSE NULL\n\t\tEND"
    ∷ "CREATE MACRO array_lower(arr, dimension) AS\n\t\t\tCASE dimension\n\t\t\tWHEN 1 THEN CASE WHEN len(arr) > 0 THEN 1 ELSE NULL END\n\t\t\tELSE NULL\n\t\tEND"
    ∷ "CREATE MACRO char_length(s) AS length(s)"
    ∷ "CREATE MACRO character_length(s) AS length(s)"
    ∷ "CREATE MACRO btrim(s) AS trim(s), (s, chars) AS trim(s, chars)"
    ∷ "CREATE MACRO every(x) AS bool_and(x)"
    ∷ "CREATE MACRO json_typeof(j) AS json_type(j)"
    ∷ "CREATE MACRO jsonb_typeof(j) AS json_type(j)"
    ∷ "CREATE MACRO json_array_elements(js) AS unnest(CAST(js::JSON AS JSON[]))"
    ∷ "CREATE MACRO jsonb_array_elements(js) AS unnest(CAST(js::JSON AS JSON[]))"
    ∷ "CREATE MACRO json_array_elements_text(js) AS unnest(CAST(js::JSON AS VARCHAR[]))"
    ∷ "CREATE MACRO jsonb_array_elements_text(js) AS unnest(CAST(js::JSON AS VARCHAR[]))"
    ∷ "CREATE MACRO json_object_keys(j) AS unnest(json_keys(j))"
    ∷ "CREATE MACRO jsonb_object_keys(j) AS unnest(json_keys(j))"
    ∷ "CREATE MACRO json_agg(x) AS json_group_array(x)"
    ∷ "CREATE MACRO jsonb_agg(x) AS json_group_array(x)"
    ∷ "CREATE MACRO json_object_agg(k, v) AS json_group_object(k, v)"
    ∷ "CREATE MACRO jsonb_object_agg(k, v) AS json_group_object(k, v)"
    ∷ "CREATE MACRO div(a, b) AS trunc(a / b)"
    ∷ "CREATE MACRO clock_timestamp() AS now()"
    ∷ "CREATE MACRO timeofday() AS CAST(now() AS varchar)"
    ∷ "CREATE MACRO quote_literal(s) AS '''' || replace(s::varchar, '''', '''''') || ''''"
    ∷ "CREATE MACRO quote_nullable(s) AS CASE WHEN s IS NULL THEN 'NULL' ELSE '''' || replace(s::varchar, '''', '''''') || '''' END"
    ∷ "CREATE MACRO array_remove(arr, elem) AS list_filter(arr, x -> x IS DISTINCT FROM elem)"
    ∷ "CREATE MACRO array_replace(arr, from_elem, to_elem) AS list_transform(arr, x -> CASE WHEN x IS NOT DISTINCT FROM from_elem THEN to_elem ELSE x END)"
    ∷ "CREATE MACRO array_positions(arr, elem) AS list_filter(generate_series(1, len(arr)), i -> arr[i] IS NOT DISTINCT FROM elem)"
    ∷ "CREATE MACRO array_ndims(arr) AS CASE WHEN arr IS NULL THEN NULL ELSE 1 END"
    ∷ "CREATE MACRO array_dims(arr) AS '[1:' || len(arr)::varchar || ']'"
    ∷ "CREATE MACRO initcap(s) AS array_to_string(list_transform(string_split(s, ' '), w -> upper(w[1]) || lower(w[2:])), ' ')"
    ∷ "CREATE MACRO pg_is_in_recovery() AS TABLE SELECT false AS pg_is_in_recovery"
    ∷ "CREATE MACRO pg_show_all_settings() AS TABLE SELECT\n\t\t\tname,\n\t\t\tvalue AS setting,\n\t\t\tNULL::text AS unit,\n\t\t\t'Settings' AS category,\n\t\t\tdescription AS short_desc,\n\t\t\tNULL::text AS extra_desc,\n\t\t\t'user' AS context,\n\t\t\tinput_type AS vartype,\n\t\t\t'default' AS source,\n\t\t\tNULL::int4 AS min_val,\n\t\t\tNULL::int4 AS max_val,\n\t\t\tNULL::text[] AS enumvals,\n\t\t\tvalue AS boot_val,\n\t\t\tvalue AS reset_val,\n\t\t\tNULL::text AS sourcefile,\n\t\t\tNULL::int4 AS sourceline,\n\t\t\tFALSE AS pending_restart\n\t\tFROM duckdb_settings()"
    ∷ "CREATE MACRO pg_get_keywords() AS TABLE SELECT\n\t\t\tkeyword_name AS word,\n\t\t\t'U' AS catcode,\n\t\t\tTRUE AS barelabel,\n\t\t\tkeyword_category AS catdesc,\n\t\t\t'can be bare label' AS baredesc\n\t\tFROM duckdb_keywords()"
    ∷ "CREATE MACRO json_array_elements(js) AS TABLE SELECT unnest(CAST(js::JSON AS JSON[])) AS value"
    ∷ "CREATE MACRO jsonb_array_elements(js) AS TABLE SELECT unnest(CAST(js::JSON AS JSON[])) AS value"
    ∷ "CREATE MACRO json_array_elements_text(js) AS TABLE SELECT unnest(CAST(js::JSON AS VARCHAR[])) AS value"
    ∷ "CREATE MACRO jsonb_array_elements_text(js) AS TABLE SELECT unnest(CAST(js::JSON AS VARCHAR[])) AS value"
    ∷ "CREATE MACRO json_object_keys(js) AS TABLE SELECT unnest(json_keys(js)) AS json_object_keys"
    ∷ "CREATE MACRO jsonb_object_keys(js) AS TABLE SELECT unnest(json_keys(js)) AS jsonb_object_keys"
    ∷ "CREATE MACRO json_each(js) AS TABLE SELECT unnest(map_entries(CAST(js::JSON AS MAP(VARCHAR, JSON))), recursive := true)"
    ∷ "CREATE MACRO jsonb_each(js) AS TABLE SELECT unnest(map_entries(CAST(js::JSON AS MAP(VARCHAR, JSON))), recursive := true)"
    ∷ "CREATE MACRO json_each_text(js) AS TABLE SELECT unnest(map_entries(CAST(js::JSON AS MAP(VARCHAR, VARCHAR))), recursive := true)"
    ∷ "CREATE MACRO jsonb_each_text(js) AS TABLE SELECT unnest(map_entries(CAST(js::JSON AS MAP(VARCHAR, VARCHAR))), recursive := true)"
    ∷ []

unfoldable pub create_information_schema_macro_queries : List String
create_information_schema_macro_queries =
    "CREATE MACRO _pg_expandarray(arr) AS STRUCT_PACK(x := unnest(arr), n := unnest(generate_series(1, array_length(arr))))"
    ∷ []

abbrev pub pg_catalog_macro_function_names : List String
pg_catalog_macro_function_names = extract_macro_names create_pg_catalog_macro_queries

abbrev pub pg_information_schema_macro_function_names : List String
pg_information_schema_macro_function_names =
    extract_macro_names create_information_schema_macro_queries

information_schema_names : pg_information_schema_macro_function_names ≡ "_pg_expandarray" ∷ []
unfolding extract_macro_names create_information_schema_macro_queries
information_schema_names = refl
