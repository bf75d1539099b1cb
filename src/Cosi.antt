-- ===== src/Cosi.antt =====
-- internal/cosi: the in-process COSI driver. The model of mapper.go is in Mapper, that of server.go
-- and grpc.go in Server.
pub mod Mapper
pub mod Server
