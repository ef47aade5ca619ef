-- ===== src/Codes.antt =====
-- The result codes of common/winerror.h and of the headers that the program's classes use.
use tag_etl.Prelude.{ℕ}

abbrev pub s_ok : ℕ
s_ok = 0

abbrev pub error_bad_format : ℕ
error_bad_format = 11

abbrev pub error_read_fault : ℕ
error_read_fault = 30

abbrev pub error_dev_not_exist : ℕ
error_dev_not_exist = 55

abbrev pub error_invalid_parameter : ℕ
error_invalid_parameter = 87

abbrev pub error_file_invalid : ℕ
error_file_invalid = 1006

abbrev pub error_cannot_open_profile : ℕ
error_cannot_open_profile = 1205

abbrev pub error_connection_refused : ℕ
error_connection_refused = 1225

abbrev pub error_not_connected : ℕ
error_not_connected = 2250

abbrev pub error_database_failure : ℕ
error_database_failure = 4313

-- utils/MySqlHelper.h
abbrev pub error_mysql_init : ℕ
error_mysql_init = 0x91000100

abbrev pub error_mysql_store_res : ℕ
error_mysql_store_res = 0x91000201

abbrev pub error_mysql_fetch_failed : ℕ
error_mysql_fetch_failed = 0x91000301

abbrev pub error_mysql_set_encode : ℕ
error_mysql_set_encode = 0x91000401

abbrev pub error_db_already_connected : ℕ
error_db_already_connected = 0x91010001

-- songLib/localLib.h
abbrev pub error_no_matched_song : ℕ
error_no_matched_song = 0x90000013

-- search/searchFileGenerator.h
abbrev pub error_write_search_song : ℕ
error_write_search_song = 0x90000014

-- refresh/refresher.h
abbrev pub error_ref_failed : ℕ
error_ref_failed = 0x90000015

abbrev pub error_ref_invalid_msg : ℕ
error_ref_invalid_msg = 0x90000016

-- utils/PacSocket.h
abbrev pub error_socket_create_failed : ℕ
error_socket_create_failed = 0x93000100

abbrev pub error_socket_connect_failed : ℕ
error_socket_connect_failed = 0x93000500

abbrev pub error_socket_send_failed : ℕ
error_socket_send_failed = 0x93000600

abbrev pub error_socket_recv_failed : ℕ
error_socket_recv_failed = 0x93000700

abbrev pub error_open_files : ℕ
error_open_files = 2401

abbrev pub error_log_not_open : ℕ
error_log_not_open = 2416249089

abbrev pub error_dir_aready_exist : ℕ
error_dir_aready_exist = 2483027969

abbrev pub error_dir_not_exist : ℕ
error_dir_not_exist = 2483028225

abbrev pub error_dir_create : ℕ
error_dir_create = 2483028224

abbrev pub error_dir_remove : ℕ
error_dir_remove = 2483028225

abbrev pub error_dir_cannot_open : ℕ
error_dir_cannot_open = 2483028481

abbrev pub error_socket_bind_failed : ℕ
error_socket_bind_failed = 2466251264

abbrev pub error_socket_listen_failed : ℕ
error_socket_listen_failed = 2466251520

abbrev pub error_socket_accept_failed : ℕ
error_socket_accept_failed = 2466251776
