-- ===== src/Mysql.antt =====
-- go/mysql: binary log coordinates (binlog.go), instance keys and maps of them (instance_key.go,
-- instance_key_map.go), connections (connection.go) and the walk to the master (utils.go).
pub mod Coordinates
pub mod InstanceKey
