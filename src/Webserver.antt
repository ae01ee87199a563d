-- ===== src/Webserver.antt =====
-- webserver/nginx.go: the configuration of the web server. Escape is the text of its strings,
-- Manifest the rules of an app, Files the files of the configuration and Server the commands.
pub mod Escape
pub mod Manifest
pub mod Server
pub mod Files
mod Tests
