-- ===== src/Remapper/SystemTables.antt =====
-- src/query_remapper_table.go and src/pg_constants.go: the tables that stand in DuckDB for those of
-- the catalog of Postgres, and the names of the latter.
use bemi_db.Prelude.{String, ◌<>◌, List, [], ◌∷◌}

-- The user, the encrypted password and the database are those of the configuration.
unfoldable pub create_pg_catalog_table_queries : String → String → String → List String
create_pg_catalog_table_queries user encrypted_password database =
    "CREATE TABLE pg_inherits(inhrelid oid, inhparent oid, inhseqno int4, inhdetachpending bool)"
    ∷ "CREATE TABLE pg_shdescription(objoid oid, classoid oid, description text)"
    ∷ "CREATE TABLE pg_statio_user_tables(relid oid, schemaname text, relname text, heap_blks_read int8, heap_blks_hit int8, idx_blks_read int8, idx_blks_hit int8, toast_blks_read int8, toast_blks_hit int8, tidx_blks_read int8, tidx_blks_hit int8)"
    ∷ "CREATE TABLE pg_replication_slots(slot_name text, plugin text, slot_type text, datoid oid, database text, temporary bool, active bool, active_pid int4, xmin int8, catalog_xmin int8, restart_lsn text, confirmed_flush_lsn text, wal_status text, safe_wal_size int8, two_phase bool, conflicting bool)"
    ∷ "CREATE TABLE pg_stat_gssapi(pid int4, gss_authenticated bool, principal text, encrypted bool, credentials_delegated bool)"
    ∷ "CREATE TABLE pg_auth_members(oid text, roleid oid, member oid, grantor oid, admin_option bool, inherit_option bool, set_option bool)"
    ∷ "CREATE TABLE pg_stat_activity(datid oid, datname text, pid int4, usesysid oid, usename text, application_name text, client_addr inet, client_hostname text, client_port int4, backend_start timestamp, xact_start timestamp, query_start timestamp, state_change timestamp, wait_event_type text, wait_event text, state text, backend_xid int8, backend_xmin int8, query text, backend_type text)"
    ∷ "CREATE TABLE pg_views(schemaname text, viewname text, viewowner text, definition text)"
    ∷ "CREATE TABLE pg_matviews(schemaname text, matviewname text, matviewowner text, tablespace text, hasindexes bool, ispopulated bool, definition text)"
    ∷ "CREATE TABLE pg_opclass(oid oid, opcmethod oid, opcname text, opcnamespace oid, opcowner oid, opcfamily oid, opcintype oid, opcdefault bool, opckeytype oid)"
    ∷ "CREATE TABLE pg_policy(oid oid, polname text, polrelid oid, polcmd text, polpermissive bool, polroles oid, polqual text, polwithcheck text)"
    ∷ "CREATE TABLE pg_statistic_ext(oid oid, stxrelid oid, stxname text, stxnamespace oid, stxowner oid, stxstattarget int4, stxkeys oid, stxkind text, stxexprs text)"
    ∷ "CREATE TABLE pg_publication(oid oid, pubname text, pubowner oid, puballtables bool, pubinsert bool, pubupdate bool, pubdelete bool, pubtruncate bool, pubviaroot bool)"
    ∷ "CREATE TABLE pg_publication_rel(oid oid, prpubid oid, prrelid oid, prqual text, prattrs text)"
    ∷ "CREATE TABLE pg_publication_namespace(oid oid, pnpubid oid, pnnspid oid)"
    ∷ "CREATE TABLE pg_stat_user_tables(relid oid, schemaname text, relname text, seq_scan int8, last_seq_scan timestamp, seq_tup_read int8, idx_scan int8, last_idx_scan timestamp, idx_tup_fetch int8, n_tup_ins int8, n_tup_upd int8, n_tup_del int8, n_tup_hot_upd int8, n_tup_newpage_upd int8, n_live_tup int8, n_dead_tup int8, n_mod_since_analyze int8, n_ins_since_vacuum int8, last_vacuum timestamp, last_autovacuum timestamp, last_analyze timestamp, last_autoanalyze timestamp, vacuum_count int8, autovacuum_count int8, analyze_count int8, autoanalyze_count int8)"
    ∷ ("CREATE VIEW pg_shadow AS SELECT '"
        <> (user
            <> ("' AS usename, '10'::oid AS usesysid, FALSE AS usecreatedb, FALSE AS usesuper, TRUE AS userepl, FALSE AS usebypassrls, '"
                <> (encrypted_password
                    <> "' AS passwd, NULL::timestamp AS valuntil, NULL::text[] AS useconfig"))))
    ∷ ("CREATE VIEW pg_roles AS SELECT '10'::oid AS oid, '"
        <> (user
            <> "' AS rolname, TRUE AS rolsuper, TRUE AS rolinherit, TRUE AS rolcreaterole, TRUE AS rolcreatedb, TRUE AS rolcanlogin, FALSE AS rolreplication, -1 AS rolconnlimit, NULL::text AS rolpassword, NULL::timestamp AS rolvaliduntil, FALSE AS rolbypassrls, NULL::text[] AS rolconfig"))
    ∷ "CREATE VIEW pg_extension AS SELECT '13823'::oid AS oid, 'plpgsql' AS extname, '10'::oid AS extowner, '11'::oid AS extnamespace, FALSE AS extrelocatable, '1.0'::text AS extversion, NULL::text[] AS extconfig, NULL::text[] AS extcondition"
    ∷ ("CREATE VIEW pg_database AS SELECT '16388'::oid AS oid, '"
        <> (database
            <> "' AS datname, '10'::oid AS datdba, '6'::int4 AS encoding, 'c' AS datlocprovider, FALSE AS datistemplate, TRUE AS datallowconn, '-1'::int4 AS datconnlimit, '722'::int8 AS datfrozenxid, '1'::int4 AS datminmxid, '1663'::oid AS dattablespace, 'en_US.UTF-8' AS datcollate, 'en_US.UTF-8' AS datctype, 'en_US.UTF-8' AS datlocale, NULL::text AS daticurules, NULL::text AS datcollversion, NULL::text[] AS datacl"))
    ∷ ("CREATE VIEW pg_user AS SELECT '"
        <> (user
            <> "' AS usename, '10'::oid AS usesysid, TRUE AS usecreatedb, TRUE AS usesuper, TRUE AS userepl, TRUE AS usebypassrls, '' AS passwd, NULL::timestamp AS valuntil, NULL::text[] AS useconfig"))
    ∷ "CREATE VIEW pg_collation AS SELECT '100'::oid AS oid, 'default' AS collname, '11'::oid AS collnamespace, '10'::oid AS collowner, 'd' AS collprovider, TRUE AS collisdeterministic, '-1'::int4 AS collencoding, NULL::text AS collcollate, NULL::text AS collctype, NULL::text AS colliculocale, NULL::text AS collicurules, NULL::text AS collversion"
    ∷ ("CREATE VIEW user AS SELECT '" <> (user <> "' AS user"))
    ∷ "CREATE VIEW pg_index AS SELECT *, FALSE AS indnullsnotdistinct FROM pg_catalog.pg_index"
    ∷ "CREATE VIEW pg_namespace AS SELECT * FROM pg_catalog.pg_namespace WHERE oid > 1265"
    ∷ "CREATE VIEW pg_class AS SELECT *, FALSE AS relforcerowsecurity FROM pg_catalog.pg_class"
    ∷ []

unfoldable pub create_information_schema_table_queries : String → List String
create_information_schema_table_queries database =
    ("CREATE VIEW columns AS\n\t\tSELECT\n\t\t\ttable_catalog, table_schema, table_name, column_name, ordinal_position, column_default, is_nullable, data_type, character_maximum_length, character_octet_length, numeric_precision, numeric_precision_radix, numeric_scale, datetime_precision, interval_type, interval_precision, character_set_catalog, character_set_schema, character_set_name, collation_catalog, collation_schema, collation_name, domain_catalog, domain_schema, domain_name,\n\t\t\t'"
      <> (database
          <> "' AS udt_catalog,\n\t\t\t'pg_catalog' AS udt_schema,\n\t\t\tCASE data_type\n\t\t\t\tWHEN 'BIGINT' THEN 'int8'\n\t\t\t\tWHEN 'BIGINT[]' THEN '_int8'\n\t\t\t\tWHEN 'BLOB' THEN 'bytea'\n\t\t\t\tWHEN 'BLOB[]' THEN '_bytea'\n\t\t\t\tWHEN 'BOOLEAN' THEN 'bool'\n\t\t\t\tWHEN 'BOOLEAN[]' THEN '_bool'\n\t\t\t\tWHEN 'DATE' THEN 'date'\n\t\t\t\tWHEN 'DATE[]' THEN '_date'\n\t\t\t\tWHEN 'FLOAT' THEN 'float8'\n\t\t\t\tWHEN 'FLOAT[]' THEN '_float8'\n\t\t\t\tWHEN 'INTEGER' THEN 'int4'\n\t\t\t\tWHEN 'INTEGER[]' THEN '_int4'\n\t\t\t\tWHEN 'VARCHAR' THEN 'text'\n\t\t\t\tWHEN 'VARCHAR[]' THEN '_text'\n\t\t\t\tWHEN 'TIME' THEN 'time'\n\t\t\t\tWHEN 'TIME[]' THEN '_time'\n\t\t\t\tWHEN 'TIMESTAMP' THEN 'timestamp'\n\t\t\t\tWHEN 'TIMESTAMP[]' THEN '_timestamp'\n\t\t\t\tWHEN 'UUID' THEN 'uuid'\n\t\t\t\tWHEN 'UUID[]' THEN '_uuid'\n\t\t\t\tELSE\n\t\t\t\t\tCASE\n\t\t\t\t\tWHEN starts_with(data_type, 'DECIMAL') THEN 'numeric'\n\t\t\t\t\tEND\n\t\t\tEND AS udt_name,\n\t\t\tscope_catalog, scope_schema, scope_name, maximum_cardinality, dtd_identifier, is_self_referencing, is_identity, identity_generation, identity_start, identity_increment, identity_maximum, identity_minimum, identity_cycle, is_generated, generation_expression, is_updatable\n\t\tFROM information_schema.columns"))
    ∷ []

unfoldable pub pg_system_tables : List String
pg_system_tables =
    "pg_aggregate" ∷ "pg_am" ∷ "pg_amop" ∷ "pg_amproc" ∷ "pg_attrdef" ∷ "pg_attribute"
    ∷ "pg_auth_members" ∷ "pg_authid" ∷ "pg_cast" ∷ "pg_class" ∷ "pg_collation" ∷ "pg_constraint"
    ∷ "pg_conversion" ∷ "pg_database" ∷ "pg_db_role_setting" ∷ "pg_default_acl" ∷ "pg_depend"
    ∷ "pg_description" ∷ "pg_enum" ∷ "pg_event_trigger" ∷ "pg_extension" ∷ "pg_foreign_data_wrapper"
    ∷ "pg_foreign_server" ∷ "pg_foreign_table" ∷ "pg_index" ∷ "pg_inherits" ∷ "pg_init_privs"
    ∷ "pg_language" ∷ "pg_largeobject" ∷ "pg_largeobject_metadata" ∷ "pg_matviews" ∷ "pg_namespace"
    ∷ "pg_opclass" ∷ "pg_operator" ∷ "pg_opfamily" ∷ "pg_parameter_acl" ∷ "pg_partitioned_table"
    ∷ "pg_policy" ∷ "pg_proc" ∷ "pg_publication" ∷ "pg_publication_namespace" ∷ "pg_publication_rel"
    ∷ "pg_user" ∷ "pg_range" ∷ "pg_replication_origin" ∷ "pg_replication_slots" ∷ "pg_rewrite"
    ∷ "pg_roles" ∷ "pg_seclabel" ∷ "pg_sequence" ∷ "pg_shadow" ∷ "pg_shdepend" ∷ "pg_shdescription"
    ∷ "pg_shseclabel" ∷ "pg_statistic" ∷ "pg_statistic_ext" ∷ "pg_statistic_ext_data"
    ∷ "pg_subscription" ∷ "pg_subscription_rel" ∷ "pg_tablespace" ∷ "pg_transform" ∷ "pg_trigger"
    ∷ "pg_ts_config" ∷ "pg_ts_config_map" ∷ "pg_ts_dict" ∷ "pg_ts_parser" ∷ "pg_ts_template"
    ∷ "pg_type" ∷ "pg_user_mapping" ∷ "pg_views" ∷ []

unfoldable pub pg_system_views : List String
pg_system_views =
    "pg_stat_activity" ∷ "pg_stat_replication" ∷ "pg_stat_wal_receiver"
    ∷ "pg_stat_recovery_prefetch" ∷ "pg_stat_subscription" ∷ "pg_stat_ssl" ∷ "pg_stat_gssapi"
    ∷ "pg_stat_progress_analyze" ∷ "pg_stat_progress_create_index" ∷ "pg_stat_progress_vacuum"
    ∷ "pg_stat_progress_cluster" ∷ "pg_stat_progress_basebackup" ∷ "pg_stat_progress_copy"
    ∷ "pg_stat_archiver" ∷ "pg_stat_bgwriter" ∷ "pg_stat_checkpointer" ∷ "pg_stat_database"
    ∷ "pg_stat_database_conflicts" ∷ "pg_stat_io" ∷ "pg_stat_replication_slots" ∷ "pg_stat_slru"
    ∷ "pg_stat_subscription_stats" ∷ "pg_stat_wal" ∷ "pg_stat_all_tables" ∷ "pg_stat_sys_tables"
    ∷ "pg_stat_user_tables" ∷ "pg_stat_xact_all_tables" ∷ "pg_stat_xact_sys_tables"
    ∷ "pg_stat_xact_user_tables" ∷ "pg_stat_all_indexes" ∷ "pg_stat_sys_indexes"
    ∷ "pg_stat_user_indexes" ∷ "pg_stat_user_functions" ∷ "pg_stat_xact_user_functions"
    ∷ "pg_statio_all_tables" ∷ "pg_statio_sys_tables" ∷ "pg_statio_user_tables"
    ∷ "pg_statio_all_indexes" ∷ "pg_statio_sys_indexes" ∷ "pg_statio_user_indexes"
    ∷ "pg_statio_all_sequences" ∷ "pg_statio_sys_sequences" ∷ "pg_statio_user_sequences" ∷ []
