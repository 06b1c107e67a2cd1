-- ===== src/Smb2/Statuses.antt =====
-- smb2_server/smb2_wire.py: the NT statuses, by number. Those of a refused path stand in Paths.
use ps2_servers.Base.{ℕ}

abbrev pub status_end_of_file : ℕ
status_end_of_file = 3221225489

abbrev pub status_more_processing_required : ℕ
status_more_processing_required = 3221225494

abbrev pub status_object_name_collision : ℕ
status_object_name_collision = 3221225525

abbrev pub status_logon_failure : ℕ
status_logon_failure = 3221225581

abbrev pub status_invalid_parameter : ℕ
status_invalid_parameter = 3221225485

abbrev pub status_not_supported : ℕ
status_not_supported = 3221225659

abbrev pub status_invalid_device_request : ℕ
status_invalid_device_request = 3221225488

abbrev pub status_file_is_a_directory : ℕ
status_file_is_a_directory = 3221225658

abbrev pub status_not_a_directory : ℕ
status_not_a_directory = 3221225731

abbrev pub status_bad_network_name : ℕ
status_bad_network_name = 3221225676

abbrev pub status_user_session_deleted : ℕ
status_user_session_deleted = 3221225987

abbrev pub status_network_name_deleted : ℕ
status_network_name_deleted = 3221225673

abbrev pub status_file_closed : ℕ
status_file_closed = 3221225768

abbrev pub status_info_length_mismatch : ℕ
status_info_length_mismatch = 3221225476

abbrev pub status_media_write_protected : ℕ
status_media_write_protected = 3221225634

abbrev pub status_disk_full : ℕ
status_disk_full = 3221225599

abbrev pub status_directory_not_empty : ℕ
status_directory_not_empty = 3221225729

abbrev pub status_buffer_overflow : ℕ
status_buffer_overflow = 2147483653

abbrev pub status_pipe_empty : ℕ
status_pipe_empty = 3221225689

abbrev pub status_no_more_files : ℕ
status_no_more_files = 2147483654

abbrev pub status_success : ℕ
status_success = 0
